-- ===== src/RequestId/NoPanic.antt =====
-- request_id.go: parseJSONRPCNumericID and formatCanonicalJSONRPCNumericID do not panic, for any
-- text. The loops that end with the text or with the digits are recursion on them, without an index.
use acp_go_sdk.Result.{◌>>=◌, guard}
use acp_go_sdk.RequestId.Key.{canonical_numeric_id_key_lem}
use acp_go_sdk.Base.{
  ◌*◌, ℕ, ◌+◌, ◌-◌, ◌≡◌, ◌≢◌, refl, ◌∙◌, Bool, true, false, [], ◌∷◌, ◌++◌, length, arith,
}
use acp_go_sdk.Base.Int.{ℤ, pos, negsuc}
use acp_go_sdk.Bytes.{Bytes, trim_space}
use acp_go_sdk.Result.{guard, Result, ok, err}
use acp_go_sdk.RequestId.Scan.{
  max_abs_exp10, IdError, index_panic, parse_numeric_id, scan_sign, scan_int, scan_frac, scan_exp,
  scan_exp_sign, scan_magnitude, nonempty_digits, span_digits, parse_bounded_int,
  parse_bounded_loop, to_decimal, at_end, trim_left_zeros, invalid_number,
}
use acp_go_sdk.RequestId.Render.{strip_zeros, render_key, render_stripped, format_numeric_id}
use acp_go_sdk.RequestId.{format_or_fail, canonical_numeric_id_key}

abbrev NoPanic {ℓ} : {A : Type ℓ} → Result IdError A → Type ℓ
NoPanic r = r ≢ err index_panic

bind-NoPanic {ℓ κ} :
    {A : Type ℓ} {B : Type κ} (m : Result IdError A) (f : A → Result IdError B)
    → NoPanic m
    → ((a : A) → m ≡ ok a → NoPanic (f a))
    → NoPanic (m >>= f)
bind-NoPanic (ok a) f h k = k a refl
bind-NoPanic (err e) f h k = λ p. h cc

abbrev NonEmpty : Bytes → Type 0
NonEmpty [] = ⊥
NonEmpty (c ∷ cs) = Unit {0}

scan_sign-NonEmpty : (s : Bytes) {r : Bool × Bytes} → scan_sign s ≡ ok r → NonEmpty r.1
unfolding scan_sign
scan_sign-NonEmpty [] h = absurd (cc)
scan_sign-NonEmpty (c ∷ []) h = ground arith
scan_sign-NonEmpty (c ∷ d ∷ s) h = ground arith

scan_sign-NoPanic : (s : Bytes) → NonEmpty s → NoPanic (scan_sign s)
unfolding scan_sign
scan_sign-NoPanic [] n = absurd n
scan_sign-NoPanic (c ∷ []) n = ground arith
scan_sign-NoPanic (c ∷ d ∷ s) n = ground arith

scan_int-NoPanic : (s : Bytes) → NonEmpty s → NoPanic (scan_int s)
unfolding scan_int
scan_int-NoPanic [] n = absurd n
scan_int-NoPanic (c ∷ s) n = ground arith

nonempty_digits-NoPanic : (p : Bytes × Bytes) → NoPanic (nonempty_digits p)
unfolding nonempty_digits
nonempty_digits-NoPanic ([], s) = λ e. cc
nonempty_digits-NoPanic (d ∷ ds, s) = λ e. cc

scan_frac-NoPanic : (s : Bytes) → NoPanic (scan_frac s)
unfolding scan_frac
scan_frac-NoPanic [] = λ e. cc
scan_frac-NoPanic (c ∷ s) = ground (arith, nonempty_digits-NoPanic (span_digits s))

parse_bounded_loop-NoPanic : (max v : ℕ) (s : Bytes) → NoPanic (parse_bounded_loop max v s)
unfolding parse_bounded_loop
parse_bounded_loop-NoPanic max v [] = λ e. cc
parse_bounded_loop-NoPanic max v (c ∷ s) =
    ground (arith, parse_bounded_loop-NoPanic max (v * 10 + (c - b'0')) s)

parse_bounded_int-NoPanic : (s : Bytes) (max : ℕ) → NoPanic (parse_bounded_int s max)
unfolding parse_bounded_int
parse_bounded_int-NoPanic [] max = λ e. cc
parse_bounded_int-NoPanic (c ∷ s) max = parse_bounded_loop-NoPanic max 0 (c ∷ s)

scan_exp_sign-NoPanic : (s : Bytes) → NoPanic (scan_exp_sign s)
unfolding scan_exp_sign
scan_exp_sign-NoPanic [] = λ e. cc
scan_exp_sign-NoPanic (c ∷ []) = ground arith
scan_exp_sign-NoPanic (c ∷ d ∷ s) = ground arith

scan_magnitude-NoPanic : (below : Bool) (s : Bytes) → NoPanic (scan_magnitude below s)
unfolding scan_magnitude
scan_magnitude-NoPanic below s =
    bind-NoPanic (nonempty_digits (span_digits s)) _ (nonempty_digits-NoPanic (span_digits s))
      λ p _.
        bind-NoPanic (parse_bounded_int p.0 max_abs_exp10) _
          (parse_bounded_int-NoPanic p.0 max_abs_exp10) λ m _ e. cc

scan_exp-NoPanic : (s : Bytes) → NoPanic (scan_exp s)
unfolding scan_exp
scan_exp-NoPanic [] = λ e. cc
scan_exp-NoPanic (c ∷ s) = ground (
  arith,
  bind-NoPanic (scan_exp_sign s) (λ p. scan_magnitude p.0 p.1) (scan_exp_sign-NoPanic s)
      λ p _. scan_magnitude-NoPanic p.0 p.1,
)

to_decimal-NoPanic :
    (negative : Bool) (ds : Bytes) (places : ℕ) (e : ℤ) → NoPanic (to_decimal negative ds places e)
unfolding to_decimal
to_decimal-NoPanic negative [] places e = λ p. cc
to_decimal-NoPanic negative (d ∷ ds) places e = ground arith

guard-NoPanic : (b : Bool) → NoPanic (guard b invalid_number)
guard-NoPanic true = λ e. cc
guard-NoPanic false = λ e. cc

parse_numeric_id-NoPanic : (s : Bytes) → NonEmpty s → NoPanic (parse_numeric_id s)
unfolding parse_numeric_id
parse_numeric_id-NoPanic s n = bind-NoPanic (scan_sign s) _ (scan_sign-NoPanic s n) λ p hp.
    bind-NoPanic (scan_int p.1) _ (scan_int-NoPanic p.1 (scan_sign-NonEmpty s hp)) λ i _.
      bind-NoPanic (scan_frac i.1) _ (scan_frac-NoPanic i.1) λ f _.
        bind-NoPanic (scan_exp f.1) _ (scan_exp-NoPanic f.1) λ e _.
          bind-NoPanic (guard (at_end e.1) invalid_number) _ (guard-NoPanic (at_end e.1))
            λ _ _. to_decimal-NoPanic p.0 (trim_left_zeros (i.0 ++ f.0)) (length f.0) e.0

render_key-NoPanic : (negative : Bool) (ds : Bytes) (e : ℤ) → NoPanic (render_key negative ds e)
unfolding render_key
render_key-NoPanic negative ds (pos e) = ground arith
render_key-NoPanic negative ds (negsuc n) = ground arith

render_stripped-NoPanic : (negative : Bool) (r : Bytes × ℤ) → NoPanic (render_stripped negative r)
unfolding render_stripped
render_stripped-NoPanic negative ([], e) = λ p. cc
render_stripped-NoPanic negative (d ∷ ds, e) = render_key-NoPanic negative (d ∷ ds) e

format_or_fail-NoPanic : (s : Bytes) → NoPanic (format_or_fail s)
unfolding format_or_fail format_numeric_id
format_or_fail-NoPanic [] = λ e. cc
format_or_fail-NoPanic (c ∷ s) =
    bind-NoPanic (parse_numeric_id (c ∷ s)) _ (parse_numeric_id-NoPanic (c ∷ s) tt)
      λ d _. render_stripped-NoPanic d.negative (strip_zeros d.digits d.exp10)

-- Whatever text is given for a number: the byte at which its sign is looked for is there, and the one
-- at which its digits begin; and where its key is written, no bound of the slices on the two sides of
-- the point is negative, and no count of zeros is.
pub canonical_numeric_id_key-NoPanic : (v : Bytes) → canonical_numeric_id_key v ≢ err index_panic
canonical_numeric_id_key-NoPanic v e =
    format_or_fail-NoPanic (trim_space v) (canonical_numeric_id_key_lem v ∙ e)
