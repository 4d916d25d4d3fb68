-- ===== src/Fs/Attr/Bounds.antt =====
-- src/fs.rs: sizes and machine integers in the attributes of a file.
use Prim.Native.Nat.{digits, min, bit_and-bitwise}
use adbfs_rust.Base.{ℕ, zero, suc, subst, sym, ◌+◌, ◌*◌, ◌/◌, ◌<◌, ◌≤◌, ◌≡◌, arith, bit_and}
use adbfs_rust.MountOpts.{FsOptions, apply_ownership}
use adbfs_rust.Parse.Meta.{FileMeta}
use adbfs_rust.Fs.Attr.{meta_to_attr}

digits-min : (n a b : ℕ) → digits (λ d. 0) min n a b ≤ b
digits-min zero a b = omega arith
digits-min (suc n) zero b = omega arith
digits-min (suc n) (suc a) b = omega (arith, digits-min n (suc a / 2) (b / 2))

bit_and-le : (a b : ℕ) → bit_and a b ≤ b
bit_and-le a b = subst (λ x. x ≤ b) (sym (bit_and-bitwise a b)) (digits-min a a b)

-- The blocks of 512 bytes cover the size with less than one block to spare, and cutting the permissions
-- to 16 bits loses none of them.
pub meta_to_attr_fits :
    (opts : FsOptions) (ino : ℕ) (meta : FileMeta)
    → (meta.size ≤ 512 * (meta_to_attr opts ino meta).blocks)
      × (512 * (meta_to_attr opts ino meta).blocks < meta.size + 512)
      × ((meta_to_attr opts ino meta).perm
          ≡ bit_and (apply_ownership opts meta.mode meta.uid meta.gid).0 0o7777)
unfolding meta_to_attr
meta_to_attr_fits opts ino meta = (
  omega arith,
  omega arith,
  omega (arith, bit_and-le (apply_ownership opts meta.mode meta.uid meta.gid).0 0o7777),
)
