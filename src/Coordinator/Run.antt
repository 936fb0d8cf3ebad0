-- ===== src/Coordinator/Run.antt =====
-- The calls that the event loop makes of the coordinator (src/runtime.rs, `run_loop`), runs of
-- them, and what has to be checked for a property to hold after any run.
use mpris_chroma.Prelude.{
  List, [], ◌∷◌, ℕ, Bool, true, false, not, ◌||◌, ◌==◌, ◌≡◌, Option, none, some, arith, Bool-cases,
  Option-cases, inl, inr, is_some,
}
use mpris_chroma.Prelude.Text.{Str}
use mpris_chroma.Prelude.Dict
use mpris_chroma.State.{Mode, PlaybackStatus, parse_status}
use mpris_chroma.Job.{CoverTarget, Desired, Outcome, JobResult}
use mpris_chroma.Coordinator.{
  Host, Coordinator, allowed_name, player_name_from_bus, mode_from_color_scheme,
}
use mpris_chroma.Coordinator.Submit.{decide, maybe_submit, decide_and_submit}
use mpris_chroma.Coordinator.Cases.{decide_and_submit_cases}
use mpris_chroma.Coordinator.Handlers.{
  on_line, on_fields, with_status, accept_line, note_player, maintain_cover, log_drop, on_vanish,
  vanish_named, vanish, on_scheme, rescheme, rerun, selected, adopt, transition, begin_shutdown,
  fire_retry,
}

pub data Input : Type 0 where
  line : Str → Input
  drop : Str → Str → Input
  lost : Str → Input
  scheme : ℕ → Input
  result : JobResult → Input
  timer : Input
  shutdown : Input

module _ {H : Type 0} ⦃h : Host H⦄ where
  unfoldable pub handle : Input → Coordinator H → Coordinator H
  handle (line text) c = on_line text c
  handle (drop category detail) c = log_drop category detail c
  handle (lost name) c = on_vanish name c
  handle (scheme value) c = on_scheme value c
  handle (result r) c = adopt r c
  handle timer c = fire_retry c
  handle shutdown c = begin_shutdown c

  unfoldable pub run : List Input → Coordinator H → Coordinator H
  run [] c = c
  run (i ∷ is) c = run is (handle i c)

  -- The steps that the handlers are made of keep the property, the timer's left out.
  pub record KeepsEvents (P : Coordinator H → Type 0) : Type 0 where
    pub logged : (cat detail : Str) (c : Coordinator H) → P c → P (log_drop cat detail c)
    pub noted :
        (n : Str) (s : PlaybackStatus) (a : Str) (c : Coordinator H)
        → P c
        → P (maintain_cover n a (note_player n s a c))
    pub vanished :
        (n : Str) (c : Coordinator H)
        → P c
        → P (record c { players = Dict.remove n c.players; covers = Dict.remove n c.covers })
    pub schemed : (m : Mode) (c : Coordinator H) → P c → P (record c { mode = m })
    pub submitted :
        (d : Desired) (p : Option Str) (b : Bool) (c : Coordinator H)
        → P c
        → P (maybe_submit d p b c)
    pub transitioned :
        (o : Outcome) (id : Option Str) (c : Coordinator H)
        → c.stopping ≡ false
        → P c
        → P (transition o id c)
    pub stopped : (c : Coordinator H) → P c → P (begin_shutdown c)

  pub record Keeps (P : Coordinator H → Type 0) : Type 0 where
    pub events : KeepsEvents P
    pub fired : (c : Coordinator H) → P c → P (fire_retry c)

  module _ (P : Coordinator H → Type 0) (k : KeepsEvents P) where
    keeps-decide : (b : Bool) (c : Coordinator H) → P c → P (decide_and_submit b c)
    keeps-decide b c p = decide_and_submit_cases P b c p (λ d q. k.submitted d q b c p)

    keeps-with_status :
        (n : Str) (s : Option PlaybackStatus) (a : Str) (c : Coordinator H)
        → P c
        → P (with_status n s a c)
    unfolding accept_line
    keeps-with_status n none a c p = k.logged _ _ c p
    keeps-with_status n (some s) a c p = keeps-decide true _ (k.noted n s a c p)

    keeps-on_fields : (parts : List Str) (c : Coordinator H) → P c → P (on_fields parts c)
    unfolding on_fields
    keeps-on_fields (n ∷ s ∷ a ∷ []) c p = elim (Bool-cases (allowed_name c n)) [
      | inl t ↦ rw t (keeps-with_status n (parse_status s) a c p)
      | inr f ↦ rw f (k.logged _ _ c p)
    ]
    keeps-on_fields _ c p = k.logged _ _ c p

    pub keeps-on_line : (text : Str) (c : Coordinator H) → P c → P (on_line text c)
    unfolding on_line
    keeps-on_line text c p = keeps-on_fields _ c p

    pub keeps-on_vanish : (name : Str) (c : Coordinator H) → P c → P (on_vanish name c)
    unfolding on_vanish
    keeps-on_vanish name c p = elim (Option-cases (player_name_from_bus name)) [
      | inl e ↦ rw (e, vanish_named) p
      | inr (n, e) ↦
          rw (e, vanish_named)
            (elim (Option-cases (Dict.get n c.players)) [
              | inl e' ↦ rw (e', vanish) p
              | inr (q, e') ↦ rw (e', vanish) (keeps-decide false _ (k.vanished n c p))
            ])
    ]

    keeps-rerun :
        (w : Option Desired) (name : Option Str) (c : Coordinator H) → P c → P (rerun w name c)
    keeps-rerun none name c p = p
    keeps-rerun (some d) name c p = elim (Bool-cases (is_some d.target)) [
      | inl t ↦ rw t (k.submitted d name true c p)
      | inr f ↦ rw f p
    ]

    keeps-rescheme :
        (shown : Option CoverTarget) (w : Option Desired) (name : Option Str) (c : Coordinator H)
        → P c
        → P (rescheme shown w name c)
    keeps-rescheme none w name c p = keeps-rerun w name c p
    keeps-rescheme (some s) w name c p = ground (
      arith,
      keeps-rerun w name c p,
      k.submitted (record { target = some s; mode = c.mode }) none true c p,
    )

    pub keeps-on_scheme : (v : ℕ) (c : Coordinator H) → P c → P (on_scheme v c)
    unfolding on_scheme
    keeps-on_scheme v c p =
        let c1 = record c { mode = mode_from_color_scheme v } in
        ground (
          arith,
          keeps-rescheme c.applied_target (selected (decide c1)).0 (selected (decide c1)).1 c1
              (k.schemed (mode_from_color_scheme v) c p),
        )

    pub keeps-adopt : (r : JobResult) (c : Coordinator H) → P c → P (adopt r c)
    unfolding adopt
    keeps-adopt r c p = elim (Bool-cases (c.stopping || not (r.generation == c.generation))) [
      | inl t ↦ rw t p
      | inr f ↦ rw f (keeps-decide false _ (k.transitioned r.outcome r.cover_id c (ground arith) p))
    ]

  module _ (P : Coordinator H → Type 0) (k : Keeps P) where
    pub keeps-handle : (i : Input) (c : Coordinator H) → P c → P (handle i c)
    unfolding handle
    keeps-handle (line t) c p = keeps-on_line P k.events t c p
    keeps-handle (drop cat d) c p = k.events.logged cat d c p
    keeps-handle (lost n) c p = keeps-on_vanish P k.events n c p
    keeps-handle (scheme v) c p = keeps-on_scheme P k.events v c p
    keeps-handle (result r) c p = keeps-adopt P k.events r c p
    keeps-handle timer c p = k.fired c p
    keeps-handle shutdown c p = k.events.stopped c p

    pub keeps-run : (is : List Input) (c : Coordinator H) → P c → P (run is c)
    unfolding run
    keeps-run [] c p = p
    keeps-run (i ∷ is) c p = keeps-run is (handle i c) (keeps-handle i c p)
