-- ===== src/Apply/Argv.antt =====
-- src/apply.rs: what reaches the argv of wlchroma-ctl, which joins it into one line of its protocol.
use mpris_chroma.Prelude.{
  ℕ, ◌≡◌, ◌≢◌, inl, inr, refl, Bool, true, false, not, ◌&&◌, ltb, Option, none, some, List, [], ◌∷◌,
  all, All, all-All, arith, Bool-cases, if◌then◌else◌, if_cases,
}
use mpris_chroma.Prelude.Text.{
  Str, codes, is_empty, is_whitespace, decimal, IsDigit, decimal-IsDigit, decimal-ne-nil,
}
use mpris_chroma.Prelude.Result.{Result, ok, err}
use mpris_chroma.Worker.{Colors}
use mpris_chroma.Apply.{
  RunError, timeout, spawn, RunOutput, ctl_timeout, CtlWorld, Ctl, fallback_palette,
  is_ascii_hexdigit, valid_hex, config_palette, on_output, run, fade_args, apply, revert_to, revert,
}

-- A word of the protocol's line: not empty, no white space.
unfoldable pub is_token : Str → Bool
is_token s = not (is_empty s) && all (λ c. not (is_whitespace c)) s

-- All words behind the program are.
abbrev pub is_line : List Str → Bool
is_line [] = false
is_line (program ∷ args) = all is_token args

-- A runner that refuses everything else.
abbrev pub tokens_only : {W : Type 0} → CtlWorld W → CtlWorld W
tokens_only world = record world {
  run = λ argv limit w. if is_line argv then world.run argv limit w else (w, err timeout);
}

hexdigit-space : (c : ℕ) → is_ascii_hexdigit c ≡ true → is_whitespace c ≡ false
unfolding is_whitespace
hexdigit-space c h = ground arith

digit-space : (c : ℕ) → IsDigit c → is_whitespace c ≡ false
unfolding is_whitespace
digit-space c h = ground arith

no_space :
    (P : ℕ → Type 0)
    → ((c : ℕ) → P c → is_whitespace c ≡ false)
    → (s : Str) → All P s
    → all (λ c. not (is_whitespace c)) s ≡ true
no_space P k [] a = refl
no_space P k (c ∷ s) a = ground (arith, k c a.0, no_space P k s a.1)

sharp_space : is_whitespace b'#' ≡ false
unfolding is_whitespace
sharp_space = refl

set_colors : is_token (codes "set-colors") ≡ true
unfolding is_token is_whitespace
set_colors = refl

set_palette : all is_token (codes "set-palette" ∷ fallback_palette ∷ []) ≡ true
unfolding is_token is_whitespace
set_palette = refl

valid_hex-is_token : (s : Str) → valid_hex s ≡ true → is_token s ≡ true
unfolding valid_hex is_token
valid_hex-is_token [] h = ground arith
valid_hex-is_token (c ∷ s) h =
    let sharp : c ≡ b'#' = ground arith in
    let digits : all is_ascii_hexdigit s ≡ true = ground arith in
    let clear = no_space (λ d. is_ascii_hexdigit d ≡ true) hexdigit-space s (all-All _ s digits) in
    rw (sharp, clear, sharp_space) refl

is_token-decimal : (n : ℕ) → is_token (decimal n) ≡ true
unfolding is_token
is_token-decimal n =
    by_shape (decimal n) (decimal-ne-nil n)
      (no_space IsDigit digit-space (decimal n) (decimal-IsDigit n))
  where
    by_shape :
        (s : Str)
        → s ≢ []
        → all (λ c. not (is_whitespace c)) s ≡ true
        → (not (is_empty s) && all (λ c. not (is_whitespace c)) s) ≡ true
    by_shape [] ne a = absurd (ne refl)
    by_shape (c ∷ s) ne a = a

module _ {W : Type 0} (world : CtlWorld W) where
  run-tokens_only :
      (ctl : Ctl) (args : List Str) (w : W)
      → all is_token args ≡ true
      → run (tokens_only world) ctl args w ≡ run world ctl args w
  unfolding run
  run-tokens_only ctl args w tokens =
      rw tokens (same (world.run (ctl.program ∷ args) ctl_timeout w))
    where
      same :
          (o : W × Result RunError RunOutput) → on_output (tokens_only world) o ≡ on_output world o
      same (w1, err timeout) = refl
      same (w1, err (spawn why)) = refl
      same (w1, ok out) = refl

  fade_args-tokens : (ms : ℕ) → all is_token (fade_args world ms) ≡ true
  fade_args-tokens ms =
      if_cases (λ args. all is_token args ≡ true) (ltb 0 ms) _ _
        (λ _. ground (arith, is_token-decimal ms)) (λ _. refl)

  apply-tokens_only :
      (ctl : Ctl) (colors : Colors) (w : W)
      → apply (tokens_only world) ctl colors w ≡ apply world ctl colors w
  unfolding apply
  apply-tokens_only ctl (a, b, c) w = elim (Bool-cases (all valid_hex (a ∷ b ∷ c ∷ []))) [
    | inr f ↦ rw f refl
    | inl t ↦ rw t (
        run-tokens_only ctl (codes "set-colors" ∷ a ∷ b ∷ c ∷ fade_args world ctl.fade_ms) w
          (tokens t))
  ]
    where
      tokens :
          all valid_hex (a ∷ b ∷ c ∷ []) ≡ true
          → all is_token (codes "set-colors" ∷ a ∷ b ∷ c ∷ fade_args world ctl.fade_ms) ≡ true
      tokens t = ground (
        arith,
        set_colors,
        valid_hex-is_token a,
        valid_hex-is_token b,
        valid_hex-is_token c,
        fade_args-tokens ctl.fade_ms,
        t,
      )

  revert_to-tokens_only :
      (ctl : Ctl) (o : Option Colors) (w : W)
      → revert_to (tokens_only world) ctl o w ≡ revert_to world ctl o w
  revert_to-tokens_only ctl (some colors) w = apply-tokens_only ctl colors w
  revert_to-tokens_only ctl none w = run-tokens_only ctl _ w set_palette

  -- Whatever colours a stage gives, whatever stands in wlchroma's config and whatever the fade is:
  -- every word behind the program's name is non-empty and holds no white space, so none can smuggle
  -- a further word or line into the protocol. A runner that refuses any other argv changes neither
  -- an application nor a reversion.
  pub ctl-tokens_only :
      (ctl : Ctl) (colors : Colors) (w : W)
      → (apply (tokens_only world) ctl colors w ≡ apply world ctl colors w)
        × (revert (tokens_only world) ctl w ≡ revert world ctl w)
  unfolding revert config_palette
  ctl-tokens_only ctl colors w = (
    apply-tokens_only ctl colors w,
    revert_to-tokens_only ctl (config_palette world ctl.config_path w) w,
  )
