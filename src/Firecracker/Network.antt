-- ===== src/Firecracker/Network.antt =====
-- pkg/firecracker/network.go: tap devices by the `ip` command.
use stockyard.Base.{
  Text, codes, text_eq, Bool, true, false, String, [], ◌∷◌, ◌++◌, take, ok, err, if◌then◌else◌,
}
use stockyard.Base.Steps.{◌>>=◌, ◌>>◌, done, when, map_err}
use stockyard.Firecracker.Host.{Call, ip, wrapped, Env, M, call}

-- TapNameForVM: `vmID[:8]` of a longer id.
unfoldable pub tap_name_for_vm : String → Text
tap_name_for_vm id = codes "tap-" ++ take 8 (codes id)

abbrev pub show_link : Text → Call
show_link name = ip (codes "link" ∷ codes "show" ∷ name ∷ [])

abbrev pub delete_link : Text → Call
delete_link name = ip (codes "link" ∷ codes "delete" ∷ name ∷ [])

abbrev pub add_tap : Text → Call
add_tap name =
    ip (codes "tuntap" ∷ codes "add" ∷ codes "dev" ∷ name ∷ codes "mode" ∷ codes "tap" ∷ [])

abbrev pub raise_link : Text → Call
raise_link name = ip (codes "link" ∷ codes "set" ∷ name ∷ codes "up" ∷ [])

abbrev pub enslave : Text → Text → Call
enslave name bridge = ip (codes "link" ∷ codes "set" ∷ name ∷ codes "master" ∷ bridge ∷ [])

module _ (env : Env) where
  -- `tapExists` and `bridgeExists`
  unfoldable pub link_exists : Text → M Bool
  link_exists name w =
      let (r, w') = call env (show_link name) w in
      elim r [ ok _ ↦ (ok true, w') | err e ↦ (ok false, w') ]

  -- `DeleteTap` of the NetworkManager
  unfoldable pub delete_tap : Text → M (Unit {0})
  unfolding link_exists
  delete_tap name = do
    there ← link_exists name
    when there (map_err (wrapped "failed to delete tap device") (call env (delete_link name)))

  -- A step of `CreateTap` whose failure deletes the tap again.
  unfoldable pub or_delete_link : Text → String → M (Unit {0}) → M (Unit {0})
  or_delete_link name what m w =
      let (r, w') = m w in
      elim r [
        | ok _ ↦ (ok tt, w')
        | err e ↦ let (s, w'') = call env (delete_link name) w' in (err (wrapped what e), w'')
      ]

  -- `CreateTap`
  unfoldable pub create_tap : Text → M (Unit {0})
  unfolding link_exists or_delete_link
  create_tap name = do
    map_err (wrapped "failed to create tap device") (call env (add_tap name))
    or_delete_link name "failed to bring up tap device" (call env (raise_link name))
    (if text_eq env.bridge_name [] then done else (do
      there ← link_exists env.bridge_name
      when there (
          or_delete_link name "failed to attach tap to bridge"
            (call env (enslave name env.bridge_name)))))
