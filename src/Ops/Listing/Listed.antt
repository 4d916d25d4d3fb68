-- ===== src/Ops/Listing/Listed.antt =====
-- src/ops.rs: `list_dir` on a directory that the device lists line by line.
use adbfs_rust.Base.{
  ◌^◌, ◌<◌, Str, codes, true, List, [], ◌∷◌, ◌++◌, map, some, Result, ok, map_err, ◌≡◌, refl, ap,
  ◌∙◌, arith, All,
}
use adbfs_rust.Base.Exec.{continue}
use adbfs_rust.Adb.{AdbError}
use adbfs_rust.Escape.{shell_escape_path}
use adbfs_rust.Parse.Meta.{SystemTime}
use adbfs_rust.Parse.Fields.Words.{IsWord}
use adbfs_rust.Parse.Line.{Libc, parse_datetime}
use adbfs_rust.Parse.Line.Printed.{Listed, listed, has_size, meta_of, parse_ls_line-listed}
use adbfs_rust.Parse.Line.Plain.{IsPlain, extract_filename-listed, listed_valid, listed_long}
use adbfs_rust.Ops.Messages.{adb}
use adbfs_rust.Ops.Device.{DeviceOps, OpsState, transport}
use adbfs_rust.Ops.Listing.{Entry, entry_of_line, entries_of_lines, push_entry, list_dir}

-- A line and the time that it shows, which can be read.
pub record IsReadable (libc : Libc) (l : Listed) (mtime : SystemTime) : Type 0 where
  pub plain : IsPlain l
  pub sized : has_size l.kind ≡ true
  pub some_link : 0 < l.links
  pub links_fit : l.links < 2 ^ 32
  pub size_fits : l.size < 2 ^ 64
  pub user_word : IsWord l.user
  pub group_word : IsWord l.group
  pub date_word : IsWord l.date
  pub time_word : IsWord l.time
  pub time_read : parse_datetime libc l.date l.time ≡ ok mtime

entry_of_line-listed :
    (libc : Libc) (l : Listed) (mtime : SystemTime)
    → IsReadable libc l mtime
    → entry_of_line libc (listed l) ≡ ok (some (l.name, some (meta_of libc l mtime)))
unfolding entry_of_line
entry_of_line-listed libc l mtime r =
    rw
      (
        listed_long l,
        listed_valid l,
        extract_filename-listed l r.plain,
        parse_ls_line-listed libc l mtime r.sized r.some_link r.links_fit r.size_fits r.user_word
            r.group_word r.date_word r.time_word r.time_read,
      )
      refl

entries_of_lines-some :
    (libc : Libc) (line : Str) (lines : List Str) (e : Entry) (es : List Entry)
    → entry_of_line libc line ≡ ok (some e)
    → entries_of_lines libc lines ≡ ok es
    → entries_of_lines libc (line ∷ lines) ≡ ok (e ∷ es)
unfolding entries_of_lines push_entry
entries_of_lines-some libc line lines e es now later = ground (arith, now, later)

entries_of_lines-listed :
    (libc : Libc) (ls : List (Listed × SystemTime))
    → All (λ l. IsReadable libc l.0 l.1) ls
    → entries_of_lines libc (map (λ l. listed l.0) ls)
      ≡ ok (map (λ l. (l.0.name, some (meta_of libc l.0 l.1))) ls)
unfolding entries_of_lines push_entry
entries_of_lines-listed libc [] h = refl
entries_of_lines-listed libc ((l, t) ∷ ls) (r, rs) =
    entries_of_lines-some libc (listed l) (map (λ l. listed l.0) ls) _ _
      (entry_of_line-listed libc l t r) (entries_of_lines-listed libc ls rs)

-- Where the device answers with lines of `ls -l` in the layout with a link count, for files that are
-- no block or character devices, `list_dir` gives these files, each with its name and the metadata
-- that `parse_ls_line` reads, in the order of the lines and none left out. The names may hold spaces
-- and colons but no arrow, so that links as `ls` prints them are left aside, and stand one space
-- behind a time that ends in a colon and two characters; the owner, group and date hold no colon;
-- the numbers fit their types, and `parse_datetime` reads the date and time.
pub list_dir-listed :
    {W : Type 0} (ops : DeviceOps W) (path : Str) (ls : List (Listed × SystemTime)) (s : OpsState W)
    (w : W)
    → ops.device.shell (codes "ls -l -a '" ++ shell_escape_path path ++ codes "'") s.world
      ≡ (ok (map (λ l. listed l.0) ls), w)
    → All (λ l. IsReadable ops.libc l.0 l.1) ls
    → list_dir ops path s
      ≡ (ok (map (λ l. (l.0.name, some (meta_of ops.libc l.0 l.1))) ls), record s { world = w })
unfolding list_dir transport
list_dir-listed {W = W} ops path ls s w answer h =
    ap
      (λ (p : Result AdbError (List Str) × W).
        continue {S = OpsState W} (map_err adb p.0)
          (λ lines s'. (entries_of_lines ops.libc lines, s')) (record s { world = p.1 }))
      answer
    ∙ ap (λ r. (r, record s { world = w })) (entries_of_lines-listed ops.libc ls h)
