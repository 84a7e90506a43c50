-- ===== src/RequestId/Key.antt =====
-- request_id.go, canonicalJSONRPCNumericIDKey as a whole: the key of a key.
use acp_go_sdk.Base.{
  suc, ◌-◌, ◌≡◌, refl, sym, ap, ◌∙◌, Bool, true, false, [], ◌∷◌, ◌++◌, length, arith, subst, take,
  drop,
}
use acp_go_sdk.Base.Int.{ℤ, pos, negsuc}
use acp_go_sdk.Bytes.{
  Bytes, codes, trim_space, AllGraphic, AllGraphic-append, trim_space-AllGraphic,
}
use acp_go_sdk.Result.{ok, >>=-eq-ok}
use acp_go_sdk.RequestId.Scan.{Decimal, parse_numeric_id, scan_sign}
use acp_go_sdk.RequestId.Render.{
  zeros, sign_text, strip_zeros, render_key, render_stripped, format_numeric_id,
}
use acp_go_sdk.RequestId.Bounds.{AllDigits}
use acp_go_sdk.RequestId.Digits.{
  AllDigits-take, AllDigits-drop, AllDigits-zeros, AllDigits-prefix, strip_zeros-split,
}
use acp_go_sdk.RequestId.ReadBack.{IsDecimal, parse_numeric_id-IsDecimal}
use acp_go_sdk.RequestId.Canonical.{format-parse-format}
use acp_go_sdk.RequestId.{format_or_fail, canonical_numeric_id_key}

AllDigits-AllGraphic : (s : Bytes) → AllDigits s → AllGraphic s
AllDigits-AllGraphic [] a = tt
AllDigits-AllGraphic (c ∷ cs) a = (ground arith, AllDigits-AllGraphic cs a.1)

sign_text-AllGraphic : (negative : Bool) → AllGraphic (sign_text negative)
sign_text-AllGraphic true = (refl, tt)
sign_text-AllGraphic false = tt

render_key-AllGraphic :
    (negative : Bool) (ds : Bytes) (e : ℤ) {key : Bytes}
    → AllDigits ds
    → render_key negative ds e ≡ ok key
    → AllGraphic key
unfolding render_key
render_key-AllGraphic negative ds (pos e) a h = subst AllGraphic (ground arith) (
    AllGraphic-append (sign_text negative) (ds ++ zeros e) (sign_text-AllGraphic negative) (
      AllGraphic-append ds (zeros e) (AllDigits-AllGraphic ds a)
        (AllDigits-AllGraphic (zeros e) (AllDigits-zeros e))))
render_key-AllGraphic negative ds (negsuc n) a h =
    let k = length ds - suc n in
    let z = suc n - length ds in
    ground (
      arith,
      AllGraphic-append (sign_text negative) (take k ds ++ (b'.' ∷ drop k ds))
          (sign_text-AllGraphic negative)
          (AllGraphic-append (take k ds) (b'.' ∷ drop k ds)
            (AllDigits-AllGraphic (take k ds) (AllDigits-take k ds a))
            (refl, AllDigits-AllGraphic (drop k ds) (AllDigits-drop k ds a))),
      AllGraphic-append (sign_text negative) (b'0' ∷ b'.' ∷ (zeros z ++ ds))
          (sign_text-AllGraphic negative)
          (
            refl,
            (
              refl,
              AllGraphic-append (zeros z) ds (AllDigits-AllGraphic (zeros z) (AllDigits-zeros z))
                  (AllDigits-AllGraphic ds a),
            ),
          ),
    )

render_stripped-AllGraphic :
    (negative : Bool) (r : Bytes × ℤ) {key : Bytes}
    → AllDigits r.0
    → render_stripped negative r ≡ ok key
    → AllGraphic key
unfolding render_stripped
render_stripped-AllGraphic negative ([], e) a h =
    subst AllGraphic {x = codes "0"} (ground arith) (refl, tt)
render_stripped-AllGraphic negative (d ∷ ds, e) a h = render_key-AllGraphic negative (d ∷ ds) e a h

format_numeric_id-AllGraphic :
    (d : Decimal) {key : Bytes} → IsDecimal d → format_numeric_id d ≡ ok key → AllGraphic key
unfolding format_numeric_id
format_numeric_id-AllGraphic d i h =
    let (n, split, _, _) = strip_zeros-split d.digits d.exp10 in
    let r = strip_zeros d.digits d.exp10 in
    render_stripped-AllGraphic d.negative r
      (AllDigits-prefix r.0 (zeros n) (subst AllDigits split i.digits_ok)) h

format_or_fail-split :
    (s : Bytes) {key : Bytes}
    → format_or_fail s ≡ ok key
    → (d : Decimal) × (parse_numeric_id s ≡ ok d) × (format_numeric_id d ≡ ok key)
unfolding format_or_fail
format_or_fail-split [] h = cc
format_or_fail-split (c ∷ cs) h = >>=-eq-ok (parse_numeric_id (c ∷ cs)) _ h

format_or_fail-join :
    (s : Bytes) {d : Decimal} {key : Bytes}
    → parse_numeric_id s ≡ ok d
    → format_numeric_id d ≡ ok key
    → format_or_fail s ≡ ok key
unfolding format_or_fail parse_numeric_id scan_sign
format_or_fail-join [] p f = cc
format_or_fail-join (c ∷ cs) p f = rw p f

pub canonical_numeric_id_key_lem :
    (s : Bytes) → format_or_fail (trim_space s) ≡ canonical_numeric_id_key s
unfolding canonical_numeric_id_key
canonical_numeric_id_key_lem s = refl

-- A key is the key of the number that it spells.
pub canonical_numeric_id_key_idem :
    (v : Bytes) {key : Bytes}
    → canonical_numeric_id_key v ≡ ok key
    → canonical_numeric_id_key key ≡ ok key
canonical_numeric_id_key_idem v {key} h =
    let (d, p, f) = format_or_fail-split (trim_space v) (canonical_numeric_id_key_lem v ∙ h) in
    let i = parse_numeric_id-IsDecimal (trim_space v) p in
    let (d', p', f') = format-parse-format d i f in
    sym (canonical_numeric_id_key_lem key)
    ∙ ap format_or_fail (trim_space-AllGraphic key (format_numeric_id-AllGraphic d i f))
    ∙ format_or_fail-join key p' f'
