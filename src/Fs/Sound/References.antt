-- ===== src/Fs/Sound/References.antt =====
-- src/fs.rs: the references on a local copy that is in use, taken and given back.
use adbfs_rust.Base.{ℕ, ◌+◌, some, ◌≡◌, ◌≢◌, refl, ap, ◌∙◌, arith, nat_eq}
use adbfs_rust.Base.Map
use adbfs_rust.Base.Map.{Map, Unique, Unique-insert, Unique-remove, get-insert, get-remove}
use adbfs_rust.Fs.State.{LocalCopy, Ptr}
use adbfs_rust.Fs.Sound.Tables.{
  Tables, Locals, Held, nothing, entering, holding, held_refs, excused, IsMapped, IsSound, copy_at,
  copy_at-insert, handles,
}

module _ {F : Type 0} (locals : Locals F) (n : ℕ) (t : Tables F) where
  -- A copy changes and keeps its mark and path, and its count follows what the handler holds.
  stored :
      (held next : Held) (p : Ptr) (c : LocalCopy)
      → ((q : Ptr) → q ≢ p → held_refs held q ≡ held_refs next q)
      → ((q : Ptr) → q ≢ p → excused held q ≡ excused next q)
      → c.refs + held_refs held p ≡ (copy_at p t.copies).refs + held_refs next p
      → ((copy_at p t.copies).refs + excused held p ≢ 0 → c.refs + excused next p ≢ 0)
      → c.evicted ≡ (copy_at p t.copies).evicted
      → c.path ≡ (copy_at p t.copies).path
      → IsMapped next t.mapped
      → IsSound locals held n t
      → IsSound locals next n (record t { copies = Map.insert p c t.copies })
  stored held next p c others excuses refs used mark path mapped h = record {
    unique = h.unique;
    fresh = h.fresh;
    on_mapped = h.on_mapped;
    opened = h.opened;
    apart = h.apart;
    held_mapped = mapped;
    few = h.few;
    room = h.room;
    backed = λ i q g.
        let b = h.backed i q g in
        record {
          allocated = b.allocated;
          kept = ground (arith, b.kept, copy_at-insert p q c t.copies);
          own_path = ground (arith, b.own_path, copy_at-insert p q c t.copies);
          counted = ground (arith, b.counted, copy_at-insert p q c t.copies, others q);
          used = ground (arith, b.used, copy_at-insert p q c t.copies, excuses q, used);
        };
  }

  pub touched :
      (held : Held) (p : Ptr) (c : LocalCopy)
      → c.refs ≡ (copy_at p t.copies).refs
      → c.evicted ≡ (copy_at p t.copies).evicted
      → c.path ≡ (copy_at p t.copies).path
      → IsSound locals held n t
      → IsSound locals held n (record t { copies = Map.insert p c t.copies })
  touched held p c r e l h =
      stored held held p c (λ q ne. refl) (λ q ne. refl) (omega (arith, r)) (λ u. ground (arith, u))
        e l h.held_mapped h

  -- A reference is taken.
  pub taken :
      (ino p : ℕ) (c : LocalCopy)
      → c.refs ≡ (copy_at p t.copies).refs + 1
      → c.evicted ≡ (copy_at p t.copies).evicted
      → c.path ≡ (copy_at p t.copies).path
      → IsSound locals (entering ino p) n t
      → IsSound locals (holding ino p) n (record t { copies = Map.insert p c t.copies })
  taken ino p c r e l h =
      stored (entering ino p) (holding ino p) p c (λ q ne. ground arith) (λ q ne. ground arith)
        (ground arith) (λ u. ground arith) e l h.held_mapped h

  -- A reference is given back, and another one is left.
  pub given :
      (ino p : ℕ) (c : LocalCopy)
      → c.refs + 1 ≡ (copy_at p t.copies).refs
      → c.refs ≢ 0
      → c.evicted ≡ (copy_at p t.copies).evicted
      → c.path ≡ (copy_at p t.copies).path
      → IsSound locals (holding ino p) n t
      → IsSound locals nothing n (record t { copies = Map.insert p c t.copies })
  given ino p c r left e l h =
      stored (holding ino p) nothing p c (λ q ne. ground arith) (λ q ne. refl) (ground arith)
        (λ u. ground arith) e l tt h

  -- What the handler has in its hands changes, and no table.
  rehold :
      (held next : Held)
      → ((q : Ptr) → held_refs held q ≡ held_refs next q)
      → ((q : Ptr)
          → (copy_at q t.copies).refs + excused held q ≢ 0
          → (copy_at q t.copies).refs + excused next q ≢ 0)
      → IsMapped next t.mapped
      → IsSound locals held n t
      → IsSound locals next n t
  rehold held next same used mapped h = record {
    unique = h.unique;
    fresh = h.fresh;
    on_mapped = h.on_mapped;
    opened = h.opened;
    apart = h.apart;
    held_mapped = mapped;
    few = h.few;
    room = h.room;
    backed = λ i q e.
        let b = h.backed i q e in
        record {
          allocated = b.allocated;
          kept = b.kept;
          own_path = b.own_path;
          counted = b.counted ∙ ap (λ k. handles q t.files + k) (same q);
          used = used q b.used;
        };
  }

  pub enter_mapped :
      (ino p : ℕ)
      → Map.get ino t.mapped ≡ some p
      → IsSound locals nothing n t
      → IsSound locals (entering ino p) n t
  enter_mapped ino p m h =
      rehold nothing (entering ino p) (λ q. refl) (λ q u. ground (arith, u)) m h

  pub leave :
      (ino p : ℕ)
      → (copy_at p t.copies).refs ≢ 0
      → IsSound locals (entering ino p) n t
      → IsSound locals nothing n t
  leave ino p used h = rehold (entering ino p) nothing (λ q. refl) (λ q u. ground (arith, u)) tt h
