-- ===== src/Fs/Handlers/Directories/Paging.antt =====
-- src/fs.rs: reading a directory in pages, as the kernel does with `readdir`.
use adbfs_rust.Base.{
  ◌-◌, ℕ, zero, suc, ◌+◌, Bool, false, List, [], ◌∷◌, ◌++◌, ◌≡◌, refl, arith, length, sym, ap, ◌∙◌,
  ◌≤◌, drop, take, append-nil, append_assoc, Bool-cases, inl, inr,
}
use adbfs_rust.Base.{some, ok, nat_eq}
use adbfs_rust.Base.Exec.{pure, ◌>>=◌}
use adbfs_rust.Base.Map
use adbfs_rust.Fs.State.{AdbFs, Fs, FsState, DirEntry}
use adbfs_rust.Fs.Handlers.Directories.{numbered, fill, readdir, read_entries}

-- The offset that the next read starts from: that of the last entry of the page.
abbrev pub resume : ℕ → List (ℕ × DirEntry) → ℕ
resume offset [] = offset
resume offset ((next, e) ∷ page) = resume next page

module _ (full : List (ℕ × DirEntry) → ℕ × DirEntry → Bool) where
  -- One reply of `readdir` after the other.
  unfoldable pub pages : ℕ → ℕ → List DirEntry → List (ℕ × DirEntry)
  unfolding numbered fill
  pages zero offset entries = []
  pages (suc fuel) offset entries =
      let page = fill full [] (numbered offset (drop offset entries)) in
      page ++ pages fuel (resume offset page) entries

module _ (full : List (ℕ × DirEntry) → ℕ × DirEntry → Bool) where
  -- A page is the page so far, then a beginning of the entries offered.
  fill_split :
      (offset : ℕ) (taken : List (ℕ × DirEntry)) (entries : List DirEntry)
      → (k : ℕ) × (k ≤ length entries)
        × (fill full taken (numbered offset entries) ≡ taken ++ numbered offset (take k entries))
  unfolding numbered fill
  fill_split offset taken [] = (0, ground arith, ground (arith, append-nil taken))
  fill_split offset taken (e ∷ entries) = elim (Bool-cases (full taken (offset + 1, e))) [
    | inl refused ↦ (0, ground arith, ground (arith, append-nil taken))
    | inr taken_up ↦
        let (k, le, eq) = fill_split (offset + 1) (taken ++ (offset + 1, e) ∷ []) entries in
        (
          suc k,
          ground arith,
          ground (
            arith,
            eq,
            append_assoc taken ((offset + 1, e) ∷ []) (numbered (offset + 1) (take k entries)),
          ),
        )
  ]

drop_nil : {A : Type 0} (n : ℕ) → drop {A = A} n [] ≡ []
drop_nil zero = refl
drop_nil (suc n) = refl

drop_eq : {A : Type 0} (m n : ℕ) (xs : List A) → m ≡ n → drop m xs ≡ drop n xs
drop_eq m n xs h = ap (λ k. drop k xs) h

drop-drop : {A : Type 0} (i k : ℕ) (xs : List A) → drop (i + k) xs ≡ drop k (drop i xs)
drop-drop zero k xs = drop_eq (0 + k) k xs (omega arith)
drop-drop (suc i) k [] = drop_nil (suc i + k) ∙ sym (drop_nil k)
drop-drop (suc i) k (x ∷ xs) =
    drop_eq (suc i + k) (suc (i + k)) (x ∷ xs) (omega arith) ∙ drop-drop i k xs

length-drop : {A : Type 0} (k : ℕ) (xs : List A) → length (drop k xs) ≡ length xs - k
length-drop zero xs = omega arith
length-drop (suc k) [] = omega arith
length-drop (suc k) (x ∷ xs) = omega (arith, length-drop k xs)

resume-numbered :
    (offset k : ℕ) (entries : List DirEntry)
    → k ≤ length entries
    → resume offset (numbered offset (take k entries)) ≡ offset + k
unfolding numbered
resume-numbered offset zero entries h = omega arith
resume-numbered offset (suc k) [] h = omega arith
resume-numbered offset (suc k) (e ∷ entries) h =
    omega (arith, resume-numbered (offset + 1) k entries (omega arith))

numbered-take-drop :
    (offset k : ℕ) (entries : List DirEntry)
    → numbered offset (take k entries) ++ numbered (offset + k) (drop k entries)
      ≡ numbered offset entries
unfolding numbered
numbered-take-drop offset zero entries = ground arith
numbered-take-drop offset (suc k) [] = refl
numbered-take-drop offset (suc k) (e ∷ entries) =
    ground (arith, numbered-take-drop (offset + 1) k entries)

module _ (full : List (ℕ × DirEntry) → ℕ × DirEntry → Bool) where
  -- A first page takes an entry where there is one.
  first_page :
      (offset : ℕ) (e : DirEntry) (entries : List DirEntry)
      → full [] (offset + 1, e) ≡ false
      → (k : ℕ) × (suc k ≤ length (e ∷ entries))
        × (fill full [] (numbered offset (e ∷ entries))
            ≡ numbered offset (take (suc k) (e ∷ entries)))
  unfolding numbered fill
  first_page offset e entries h =
      let (k, le, eq) = fill_split full (offset + 1) ((offset + 1, e) ∷ []) entries in
      (k, ground arith, ground (arith, eq))

  -- A page of `k` entries, then the pages from there on.
  page_then :
      (offset k : ℕ) (entries rest : List DirEntry) (page later : List (ℕ × DirEntry))
      → k ≤ length rest
      → page ≡ numbered offset (take k rest)
      → later ≡ numbered (offset + k) (drop k rest)
      → page ++ later ≡ numbered offset rest
  page_then offset k entries rest page later le hp hl =
      ground (arith, hp, hl, numbered-take-drop offset k rest)

  abbrev next_page : ℕ → ℕ → List DirEntry → List (ℕ × DirEntry) → List (ℕ × DirEntry)
  next_page fuel offset entries page = page ++ pages full fuel (resume offset page) entries

  -- The pages from an offset, for what is left of the listing there.
  pages_from :
      (fuel offset : ℕ) (entries rest : List DirEntry)
      → ((e : ℕ × DirEntry) → full [] e ≡ false)
      → drop offset entries ≡ rest
      → length rest ≤ fuel
      → pages full fuel offset entries ≡ numbered offset rest
  unfolding pages
  pages_from zero offset entries [] takes eq h = refl
  pages_from zero offset entries (e ∷ rest) takes eq h = ground arith
  pages_from (suc fuel) offset entries [] takes eq h =
      ground (arith, eq, pages_from fuel offset entries [] takes eq (omega arith))
  pages_from (suc fuel) offset entries (e ∷ rest) takes eq h =
      let (k, le, page) = first_page offset e rest (takes (offset + 1, e)) in
      ap (λ d. next_page fuel offset entries (fill full [] (numbered offset d))) eq
      ∙ page_then offset (suc k) entries (e ∷ rest) (fill full [] (numbered offset (e ∷ rest)))
          (pages full fuel (resume offset (fill full [] (numbered offset (e ∷ rest)))) entries) le
          page
          (ap (λ o. pages full fuel o entries)
              (ap (resume offset) page ∙ resume-numbered offset (suc k) (e ∷ rest) le)
            ∙ pages_from fuel (offset + suc k) entries (drop k rest) takes
                (drop-drop offset (suc k) entries ∙ ap (drop (suc k)) eq)
                (omega (arith, length-drop k rest)))

module _ {W F : Type 0} (fs : AdbFs W F) (full : List (ℕ × DirEntry) → ℕ × DirEntry → Bool)
    (fh : ℕ) where
  -- Calls of `readdir` one after the other.
  unfoldable pub reads : ℕ → ℕ → Fs W F (List (ℕ × DirEntry))
  reads zero offset = pure []
  reads (suc fuel) offset = do
    page ← readdir fs full fh offset
    rest ← reads fuel (resume offset page)
    pure (page ++ rest)

  reads-pages :
      (fuel offset : ℕ) (entries : List DirEntry) (s : FsState W F)
      → Map.get fh s.open_dirs ≡ some entries
      → reads fuel offset s ≡ (ok (pages full fuel offset entries), s)
  unfolding reads pages readdir read_entries
  reads-pages zero offset entries s h = refl
  reads-pages (suc fuel) offset entries s h = rw (
    h,
    reads-pages fuel (resume offset (fill full [] (numbered offset (drop offset entries)))) entries
        s h,
  )

  -- Calls of `readdir` on a handle, each from the offset of the last entry before, read the listing
  -- that was taken at `opendir` to its end: each entry once, in order, with its offset. The reply's
  -- buffer has to take at least one entry, and there is a call for each entry.
  pub reads_lem :
      (fuel offset : ℕ) (entries : List DirEntry) (s : FsState W F)
      → ((e : ℕ × DirEntry) → full [] e ≡ false)
      → Map.get fh s.open_dirs ≡ some entries
      → length (drop offset entries) ≤ fuel
      → reads fuel offset s ≡ (ok (numbered offset (drop offset entries)), s)
  reads_lem fuel offset entries s takes is_open h =
      reads-pages fuel offset entries s is_open
      ∙ ap (λ l. (ok l, s)) (pages_from full fuel offset entries (drop offset entries) takes refl h)
