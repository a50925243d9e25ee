-- ===== src/Core/FiberDebugInfo.antt =====
-- ustevent/core/FiberDebugInfo.h and .cpp: what a fiber tells a debugger. A node is its address, a
-- description is its characters. libunwind is a parameter.
pub mod Frames
use ustevent.Prelude.{
  ℕ, zero, suc, ◌+◌, ◌-◌, Bool, true, false, Option, none, some, List, [], ◌∷◌, Outcome, done, spin,
  fault, ◌>>=◌, ltb, ◌==◌, if◌then◌else◌, length, set, replicate,
}

-- `unw_get_reg` of the instruction pointer, which stores nothing when it fails, and `unw_step`: the
-- result is 0 at the last frame, and `true` says that it is.
pub record Unwinder : Type 1 where
  pub Cursor : Type 0
  pub get_ip : Cursor → Option ℕ
  pub step : Cursor → Bool × Cursor

pub record FiberDebugInfo : Type 0 where
  pub prev : Option ℕ
  pub next : Option ℕ
  pub description : List ℕ
  pub terminated : Bool
  pub size : ℕ
  pub backtrace : List ℕ

abbrev pub backtrace_size : ℕ
backtrace_size = 64

abbrev pub create : FiberDebugInfo
create = record {
  prev = none;
  next = none;
  description = [];
  terminated = false;
  size = 0;
  backtrace = replicate backtrace_size 0;
}

-- A write to `_backtrace[i]`.
unfoldable pub store_frame : List ℕ → ℕ → Option ℕ → Outcome (List ℕ)
store_frame b i ip =
    if ltb i (length b) then done (elim ip [ none ↦ b | some a ↦ set b i a ]) else fault

-- The loop that clears the entries from `i` on; `rest` rounds are left.
unfoldable pub clear_from : ℕ → ℕ → List ℕ → Outcome (List ℕ)
clear_from zero i b = done b
clear_from (suc rest) i b = store_frame b i (some 0) >>= λ c. clear_from rest (suc i) c

module _ (u : Unwinder) where
  open u use {Cursor, get_ip, step}

  -- The body of the loop after the first write: the second one at the last frame.
  unfoldable pub last_frame : Cursor → ℕ → List ℕ → Outcome (ℕ × List ℕ)
  last_frame c i b =
      if ltb i backtrace_size
      then (store_frame b i (get_ip c) >>= λ b'. done (suc i, b'))
      else done (i, b)

  -- The `do` loop, on fuel.
  unfoldable pub walk : ℕ → Cursor → ℕ → List ℕ → Outcome (ℕ × List ℕ)
  walk zero c i b = spin
  walk (suc fuel) c i b = store_frame b i (get_ip c) >>= λ b'.
      let (is_last, c') = step c in
      let rest = walk fuel c' (suc i) b' in
      if is_last
      then last_frame c' (suc i) b'
      else if ltb (suc i) backtrace_size
      then rest
      else done (suc i, b')

  unfoldable pub update_frame : Cursor → FiberDebugInfo → Outcome FiberDebugInfo
  update_frame c d = do
    (i, b) ← walk backtrace_size c 0 d.backtrace
    cleared ← clear_from (backtrace_size - i) i b
    done (record d { size = i; backtrace = cleared })

unfoldable pub set_description : List ℕ → FiberDebugInfo → FiberDebugInfo
set_description text d = record d { description = text }

unfoldable pub set_terminated : Bool → FiberDebugInfo → FiberDebugInfo
set_terminated b d = record d { terminated = b }
