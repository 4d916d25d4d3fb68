-- ===== src/Ops/Touch/Laws.antt =====
-- src/ops.rs: the rounds of `touch` and its two formats of dates.
use adbfs_rust.Base.{
  ℕ, suc, Str, Bool, true, false, List, [], ◌∷◌, Option, none, some, ◌≡◌, refl, arith, ok,
}
use adbfs_rust.Base.Exec.{>>=_ext}
use adbfs_rust.Adb.{ShellOutput}
use adbfs_rust.Parse.Meta.{SystemTime}
use adbfs_rust.Ops.Device.{DeviceOps, OpsState, Op, transport}
use adbfs_rust.Ops.Messages.{first_message}
use adbfs_rust.Ops.Touch.{
  touch, touch_rounds, touch_parts, touch_send, touch_reply, join_parts, is_date_err,
}

module _ {W : Type 0} (ops : DeviceOps W) (path : Str) where
  -- In the legacy mode there is no recursive call.
  touch_reply_legacy :
      (again other : Op ops (Unit {0})) (message : Option Str) (s : OpsState W)
      → touch_reply ops false path again message s ≡ touch_reply ops false path other message s
  unfolding touch_reply
  touch_reply_legacy again other none s = refl
  touch_reply_legacy again other (some message) s = ground arith

  touch_send_legacy :
      (again other : Op ops (Unit {0})) (parts : List Str) (s : OpsState W)
      → touch_send ops false path again parts s ≡ touch_send ops false path other parts s
  unfolding touch_send
  touch_send_legacy again other [] s = refl
  touch_send_legacy again other (p ∷ ps) s =
      >>=_ext (transport (ops.device.shell_with_stderr (join_parts (p ∷ ps)))) _ _ s
        (λ output t. touch_reply_legacy again other (first_message output) t)

  send_in_mode :
      (again other : Op ops (Unit {0})) (gnu : Bool) (at mt : Option SystemTime) (s : OpsState W)
      → gnu ≡ false
      → touch_send ops gnu path again (touch_parts gnu path at mt) s
        ≡ touch_send ops gnu path other (touch_parts gnu path at mt) s
  send_in_mode again other true at mt s h = cc
  send_in_mode again other false at mt s h =
      touch_send_legacy again other (touch_parts false path at mt) s

  rounds_legacy :
      (j k : ℕ) (at mt : Option SystemTime) (s : OpsState W)
      → s.touch_gnu_mode ≡ false
      → touch_rounds ops (suc j) path at mt s ≡ touch_rounds ops (suc k) path at mt s
  unfolding touch_rounds
  rounds_legacy j k at mt s legacy =
      send_in_mode (touch_rounds ops j path at mt) (touch_rounds ops k path at mt) s.touch_gnu_mode
        at mt s legacy

  reply_rounds :
      (j k : ℕ) (at mt : Option SystemTime) (gnu : Bool) (message : Option Str) (s : OpsState W)
      → touch_reply ops gnu path (touch_rounds ops (suc j) path at mt) message s
        ≡ touch_reply ops gnu path (touch_rounds ops (suc k) path at mt) message s
  unfolding touch_reply
  reply_rounds j k at mt gnu none s = refl
  reply_rounds j k at mt gnu (some message) s =
      ground (arith, rounds_legacy j k at mt (record s { touch_gnu_mode = false }) refl)

  send_rounds :
      (j k : ℕ) (at mt : Option SystemTime) (gnu : Bool) (parts : List Str) (s : OpsState W)
      → touch_send ops gnu path (touch_rounds ops (suc j) path at mt) parts s
        ≡ touch_send ops gnu path (touch_rounds ops (suc k) path at mt) parts s
  unfolding touch_send
  send_rounds j k at mt gnu [] s = refl
  send_rounds j k at mt gnu (p ∷ ps) s =
      >>=_ext (transport (ops.device.shell_with_stderr (join_parts (p ∷ ps)))) _ _ s
        (λ output t. reply_rounds j k at mt gnu (first_message output) t)

  -- Two rounds are enough: more fuel gives the same result and the same state, from every state and
  -- on every device.
  pub touch_rounds-touch :
      (k : ℕ) (atime mtime : Option SystemTime) (s : OpsState W)
      → touch_rounds ops (suc (suc k)) path atime mtime s ≡ touch ops path atime mtime s
  unfolding touch touch_rounds
  touch_rounds-touch k atime mtime s =
      send_rounds k 0 atime mtime s.touch_gnu_mode (touch_parts s.touch_gnu_mode path atime mtime) s

  -- Once a device has refused the first format of dates, the call goes on in the legacy mode, from the
  -- world that the refused command left.
  pub touch_falls_back :
      (atime mtime : Option SystemTime) (v w : W) (p : Str) (ps : List Str) (output : ShellOutput)
      (message : Str)
      → touch_parts true path atime mtime ≡ p ∷ ps
      → ops.device.shell_with_stderr (join_parts (p ∷ ps)) v ≡ (ok output, w)
      → first_message output ≡ some message
      → is_date_err message ≡ true
      → touch ops path atime mtime (record { world = v; touch_gnu_mode = true })
        ≡ touch ops path atime mtime (record { world = w; touch_gnu_mode = false })
  unfolding touch touch_rounds touch_send touch_reply transport
  touch_falls_back atime mtime v w p ps output message parts answer said refused =
      rw (parts, answer, said, refused)
        (rounds_legacy 0 1 atime mtime (record { world = w; touch_gnu_mode = false }) refl)
