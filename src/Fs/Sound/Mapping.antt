-- ===== src/Fs/Sound/Mapping.antt =====
-- src/fs.rs: local copies that come into use and go out of use.
use adbfs_rust.Base.{
  ℕ, ◌+◌, ◌<◌, ◌==◌, none, some, ◌≡◌, ◌≢◌, refl, ap, ◌∙◌, arith, nat_eq, inl, inr, Bool-cases,
}
use adbfs_rust.Base.Map
use adbfs_rust.Base.Map.{Map, Unique, Unique-insert, Unique-remove, get-insert, get-remove}
use adbfs_rust.Fs.State.{LocalCopy, Ptr, new_copy}
use adbfs_rust.Fs.Sound.Tables.{
  Tables, Locals, Held, nothing, entering, holding, held_refs, excused, IsSound, IsBacked, copy_at,
  copy_at-insert, handles, handles_of_entry, handles_of_nobody,
}

module _ {F : Type 0} (locals : Locals F) (n : ℕ) (t : Tables F) where
  -- A copy without handles is evicted and leaves the map.
  evicted :
      (held : Held) (ino p : ℕ) (c : LocalCopy)
      → ((q : Ptr) → q ≢ p → held_refs held q ≡ 0)
      → ((q : Ptr) → q ≢ p → excused held q ≡ 0)
      → Map.get ino t.mapped ≡ some p
      → handles p t.files ≡ 0
      → IsSound locals held n t
      → IsSound locals nothing n
          (record t { copies = Map.insert p c t.copies; mapped = Map.remove ino t.mapped })
  evicted held ino p c others excuses m none_left h = record {
    unique = h.unique;
    fresh = h.fresh;
    on_mapped = λ fh f g.
        ground (
          arith,
          get-remove ino f.ino t.mapped,
          h.on_mapped fh f g,
          handles_of_entry fh f t.files g,
        );
    opened = h.opened;
    apart = λ i j q a b.
        ground (arith, get-remove ino i t.mapped, get-remove ino j t.mapped, h.apart i j q);
    held_mapped = tt;
    few = h.few;
    room = h.room;
    backed = λ i q g.
        let other : (Map.get i t.mapped ≡ some q) × (i ≢ ino) =
          ground (arith, get-remove ino i t.mapped) in
        let away : q ≢ p = λ e. other.1 (h.apart i ino p (other.0 ∙ ap some e) m) in
        let b = h.backed i q other.0 in
        record {
          allocated = b.allocated;
          kept = ground (arith, b.kept, copy_at-insert p q c t.copies);
          own_path = ground (arith, b.own_path, copy_at-insert p q c t.copies);
          counted = ground (arith, b.counted, copy_at-insert p q c t.copies, others q away);
          used = ground (arith, b.used, copy_at-insert p q c t.copies, excuses q away);
        };
  }

  pub dropped :
      (ino p : ℕ) (c : LocalCopy)
      → (copy_at p t.copies).refs ≡ 0
      → IsSound locals (entering ino p) n t
      → IsSound locals nothing n
          (record t { copies = Map.insert p c t.copies; mapped = Map.remove ino t.mapped })
  dropped ino p c unused h =
      let b = h.backed ino p h.held_mapped in
      evicted (entering ino p) ino p c (λ q ne. refl) (λ q ne. ground arith) h.held_mapped
        (omega (arith, b.counted, unused)) h

  pub last_given :
      (ino p : ℕ) (c : LocalCopy)
      → (copy_at p t.copies).refs ≡ 1
      → IsSound locals (holding ino p) n t
      → IsSound locals nothing n
          (record t { copies = Map.insert p c t.copies; mapped = Map.remove ino t.mapped })
  last_given ino p c one h =
      let b = h.backed ino p h.held_mapped in
      evicted (holding ino p) ino p c (λ q ne. ground arith) (λ q ne. refl) h.held_mapped
        (ground (arith, b.counted, one)) h

  -- A new copy is mapped.
  pub enter_new :
      (ino : ℕ)
      → Map.get ino t.mapped ≡ none
      → IsSound locals nothing n t
      → IsSound locals (entering ino t.next_ptr) n (record t {
        mapped = Map.insert ino t.next_ptr t.mapped;
        copies = Map.insert t.next_ptr (new_copy (locals.path_of ino)) t.copies;
        next_ptr = t.next_ptr + 1;
      })
  enter_new ino unmapped h = record {
    unique = h.unique;
    fresh = h.fresh;
    on_mapped =
        λ fh f g. ground (arith, get-insert ino f.ino t.next_ptr t.mapped, h.on_mapped fh f g);
    opened = h.opened;
    apart = λ i j q a b. ground (
      arith,
      get-insert ino i t.next_ptr t.mapped,
      get-insert ino j t.next_ptr t.mapped,
      h.apart i j q,
      allocated i q,
      allocated j q,
    );
    held_mapped = ground (arith, get-insert ino ino t.next_ptr t.mapped);
    few = h.few;
    room = h.room;
    backed = λ i q g. new_backed i q g;
  }
    where
      allocated : (i q : ℕ) → Map.get i t.mapped ≡ some q → q < t.next_ptr
      allocated i q g = (h.backed i q g).allocated

      unhandled : handles t.next_ptr t.files ≡ 0
      unhandled =
          handles_of_nobody t.next_ptr t.files h.unique
            (λ fh f g e. omega (arith, e, allocated f.ino f.copy (h.on_mapped fh f g)))

      new_backed :
          (i q : ℕ)
          → Map.get i (Map.insert ino t.next_ptr t.mapped) ≡ some q
          → IsBacked locals.path_of
              (entering ino t.next_ptr)
              (record t {
                mapped = Map.insert ino t.next_ptr t.mapped;
                copies = Map.insert t.next_ptr (new_copy (locals.path_of ino)) t.copies;
                next_ptr = t.next_ptr + 1;
              })
              i
              q
      new_backed i q g = elim (Bool-cases (ino == i)) [
        | inl e ↦
            let q-new : t.next_ptr ≡ q = ground (arith, get-insert ino i t.next_ptr t.mapped) in
            let at_q = copy_at-insert t.next_ptr q (new_copy (locals.path_of ino)) t.copies in
            record {
              allocated = omega arith;
              kept = ground (arith, at_q);
              own_path = ground (arith, at_q);
              counted = ground (arith, at_q, unhandled);
              used = ground (arith, at_q);
            }
        | inr e ↦
            let old : Map.get i t.mapped ≡ some q =
              ground (arith, get-insert ino i t.next_ptr t.mapped) in
            let below = allocated i q old in
            let b = h.backed i q old in
            let at_q = copy_at-insert t.next_ptr q (new_copy (locals.path_of ino)) t.copies in
            record {
              allocated = omega arith;
              kept = ground (arith, at_q, b.kept);
              own_path = ground (arith, at_q, b.own_path);
              counted = ground (arith, at_q, b.counted);
              used = ground (arith, at_q, b.used);
            }
      ]
