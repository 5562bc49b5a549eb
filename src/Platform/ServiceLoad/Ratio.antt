-- ===== src/Platform/ServiceLoad/Ratio.antt =====
-- The published load is a ratio.
use native.Mathlib.Nat.{div-le_of_le-mul, mod-le, le_trans, mul-le-mul_right}
use pico_uart.Prelude.{inr, inl, leb, ◌/◌, Bool-cases, ◌*◌, sub32, u64, refl, ◌≡◌, arith}
use pico_uart.Prelude.{
  ◌⊎◌, false, ◌-◌, true, ◌≡◌, ◌+◌, ◌<◌, [], ◌∷◌, Bool, if◌then◌else◌, ◌≤◌, ℕ, u32, List,
}
use pico_uart.Platform.ServiceLoad.{Core, begin_pass, note, end_pass, init, read_load, unavailable}

-- One turn of the service loop: the clock at its begin and its end, and whether it did something.
pub record Pass : Type 0 where
  pub begins : ℕ
  pub ends : ℕ
  pub works : Bool

-- The timer gives the low 32 bits of the clock.
unfoldable pub pass : Pass → Core → Core
pass p core =
    let begun = begin_pass (u32 p.begins) core in
    end_pass (u32 p.ends) (if p.works then note begun else begun)

unfoldable pub passes : List Pass → Core → Core
passes [] core = core
passes (p ∷ ps) core = passes ps (pass p core)

-- Passes that follow each other from a time on, less than 2^31 microseconds from end to end.
abbrev pub IsTimed : ℕ → List Pass → Type 0
IsTimed now [] = Unit
IsTimed now (p ∷ ps) =
    (now ≤ p.begins) × (p.begins ≤ p.ends) × (p.ends < now + 0x8000_0000) × IsTimed p.ends ps

-- What holds between two passes: the open window began at `origin`.
record IsOpen (now origin : ℕ) (core : Core) : Type 0 where
  begun : origin ≤ now
  recent : now < origin + 1000000
  runs : core.started ≡ true
  start : core.window_start ≡ u32 origin
  busy : core.busy_us ≤ now - origin
  ratio : (core.published ≤ 10000) ⊎ (core.published ≡ 0xffff)

elapsed_lem :
    (origin ends : ℕ)
    → origin ≤ ends
    → ends < origin + 0x1_0000_0000
    → sub32 (u32 ends) (u32 origin) ≡ ends - origin
elapsed_lem origin ends a b = omega arith

ratio_bound :
    (busy elapsed : ℕ)
    → busy ≤ elapsed
    → 0 < elapsed
    → elapsed < 0x1_0000_0000
    → u32 (u64 (busy * 10000) / elapsed) ≤ 10000
ratio_bound busy elapsed a b c =
    let small : busy * 10000 ≤ elapsed * 10000 = mul-le-mul_right 10000 a in
    le_trans (mod-le _ 0x1_0000_0000)
      (div-le_of_le-mul elapsed (le_trans (mod-le (busy * 10000) 0x1_0000_0000_0000_0000) small))

-- The end of a pass, for a window that began at `origin` and a pass that began at `begins`.
end-IsOpen :
    (origin begins ends : ℕ) (core : Core)
    → origin ≤ begins
    → begins ≤ ends
    → ends < origin + 0xffff_ffff
    → core.started ≡ true
    → core.window_start ≡ u32 origin
    → core.pass_start ≡ u32 begins
    → core.busy_us ≤ begins - origin
    → (core.published ≤ 10000) ⊎ (core.published ≡ 0xffff)
    → (origin' : ℕ) × IsOpen ends origin' (end_pass (u32 ends) core)
unfolding end_pass
end-IsOpen origin begins ends core a b c st ws ps bz pub_ =
    let e : sub32 (u32 ends) core.window_start ≡ ends - origin =
      ground (arith, elapsed_lem origin ends) in
    let d : sub32 (u32 ends) core.pass_start ≡ ends - begins =
      ground (arith, elapsed_lem begins ends) in
    let busy' =
      if core.worked then u64 (core.busy_us + sub32 (u32 ends) core.pass_start) else core.busy_us in
    let small : busy' ≤ ends - origin = ground arith in
    elim (Bool-cases (leb 1000000 (ends - origin))) [
      | inl h ↦ (
        ends,
        record {
          begun = omega arith;
          recent = omega arith;
          runs = st;
          start = ground arith;
          busy = ground arith;
          ratio =
              inl (
                rw e (rw h (ratio_bound busy' (ends - origin) small (ground arith) (omega arith))));
        },
      )
      | inr h ↦ (
        origin,
        record {
          begun = omega arith;
          recent = ground arith;
          runs = st;
          start = ground arith;
          busy = ground arith;
          ratio = ground arith;
        },
      )
    ]

-- Between two passes the core has either not run yet or has an open window.
abbrev IsReady : ℕ → Core → Type 0
IsReady now core =
    ((core.started ≡ false) × (core.busy_us ≡ 0) × (core.published ≡ 0xffff))
    ⊎ ((origin : ℕ) × IsOpen now origin core)

pass-IsReady :
    (now : ℕ) (p : Pass) (core : Core)
    → IsReady now core
    → now ≤ p.begins
    → p.begins ≤ p.ends
    → p.ends < now + 0x8000_0000
    → IsReady p.ends (pass p core)
unfolding pass begin_pass note
pass-IsReady now p core (inl (st, bz, pu)) a b c = inr (
    end-IsOpen p.begins p.begins p.ends _ (omega arith) b (omega arith) (ground arith)
      (ground arith) (ground arith) (ground arith) (ground arith))
pass-IsReady now p core (inr (origin, v)) a b c =
    let lo = v.begun in
    let hi = v.recent in
    let st = v.runs in
    let ws = v.start in
    let bz = v.busy in
    let ra = v.ratio in
    inr (
      end-IsOpen origin p.begins p.ends _ (omega arith) b (omega arith) (ground arith)
        (ground arith) (ground arith) (ground arith) (ground arith))

passes-IsReady :
    (now : ℕ) (ps : List Pass) (core : Core)
    → IsReady now core
    → IsTimed now ps
    → (later : ℕ) × IsReady later (passes ps core)
unfolding passes
passes-IsReady now [] core v t = (now, v)
passes-IsReady now (p ∷ ps) core v (a, b, c, t) =
    passes-IsReady p.ends ps (pass p core) (pass-IsReady now p core v a b c) t

-- After any sequence of passes from the start, each over within 2^31 microseconds of the end of the
-- one before, the load that is read is at most 10000 basis points, or it is not available yet.
pub service_load_lem :
    (now : ℕ) (ps : List Pass) (core : Core)
    → IsTimed now ps
    → let load = read_load (passes ps (init core)) in (load ≤ 10000) ⊎ (load ≡ unavailable)
unfolding read_load
service_load_lem now ps core t =
    let (later, ready) =
      passes-IsReady now ps (init core) (unfold init in inl (refl, refl, refl)) t in
    elim ready [
      | inl (st, bz, pu) ↦ inr (ground arith)
      | inr (origin, v) ↦ let ra = v.ratio in ground arith
    ]
