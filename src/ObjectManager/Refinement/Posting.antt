-- ===== src/ObjectManager/Refinement/Posting.antt =====
-- Posting keeps what a client can show equal to the cache.
use bluez_obex_native.Common.{
  ◌≡◌, ◌∙◌, true, false, ◌&&◌, some, arith, Bool-cases, inl, inr, if◌then◌else◌,
}
use bluez_obex_native.Common.Strings.{Str, ◌==◌, ==_iff}
use bluez_obex_native.Sdbus.{Sdbus}
use bluez_obex_native.Bus.{PropertiesMap}
use bluez_obex_native.ObjectManager.Interfaces.{is_obex_interface}
use bluez_obex_native.ObjectManager.State.{Manager, post_snapshot, report, is_gone}
use bluez_obex_native.ObjectManager.View.{view, view-append, is_ready, props_at, IsFaithful}
use bluez_obex_native.ObjectManager.View.Lookups.{snapshot_ready, view-post_snapshot}

module _ ⦃s : Sdbus⦄ where
  cache-post_snapshot :
      (path iface : Str) (props : PropertiesMap) (m : Manager)
      → (post_snapshot path iface props m).interfaces_by_path ≡ m.interfaces_by_path
  unfolding post_snapshot
  cache-post_snapshot path iface props m = ground arith

  pub report-IsFaithful :
      (path name message : Str) (m : Manager)
      → IsFaithful m
      → IsFaithful (report path name message m)
  unfolding report
  report-IsFaithful path name message m h p i = elim (Bool-cases (is_gone name)) [
    | inl e ↦ rw e (h p i)
    | inr e ↦ rw e (view-append p i m.posted _ ∙ h p i)
  ]

  -- The cache gets new properties for an interface that a client knows of, and their snapshot is
  -- posted.
  pub publish-IsFaithful :
      (path iface : Str) (props : PropertiesMap) (m m' : Manager)
      → is_obex_interface iface ≡ true
      → IsFaithful m
      → is_ready (view path iface m'.posted) ≡ true
      → ((p i : Str) → (path == p && iface == i) ≡ false → view p i m'.posted ≡ view p i m.posted)
      → ((p i : Str)
          → props_at p i m'.interfaces_by_path
            ≡ (if path == p && iface == i then some props else props_at p i m.interfaces_by_path))
      → IsFaithful (post_snapshot path iface props m')
  publish-IsFaithful path iface props m m' obex h ready same_view new_props p i =
      rw (view-post_snapshot p i path iface props m' obex, cache-post_snapshot, new_props p i)
        (elim (Bool-cases (path == p && iface == i)) [
          | inl e ↦
              let at_path : path ≡ p = ground (arith, ==_iff path p) in
              let at_iface : iface ≡ i = ground (arith, ==_iff iface i) in
              rw (e, ← at_path, ← at_iface, ready)
          | inr e ↦ rw (e, same_view p i e) (h p i)
        ])

  -- What is cached under an interface of the manager is known to a client.
  pub cached_ready :
      (path iface : Str) (props : PropertiesMap) (m : Manager)
      → is_obex_interface iface ≡ true
      → IsFaithful m
      → props_at path iface m.interfaces_by_path ≡ some props
      → is_ready (view path iface m.posted) ≡ true
  cached_ready path iface props m obex h e =
      rw (h path iface, e) (snapshot_ready path iface props obex)
