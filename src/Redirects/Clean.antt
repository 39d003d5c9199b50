-- ===== src/Redirects/Clean.antt =====
-- cleanRedirectProtocolSoLinksActuallyWork of redirects/redirects.go.
use Prim.Native.String.{◌++◌}
use text.Mathlib.TextLemmas.{append_assoc}
use potat_api.Base.{
  ◌≡◌, inl, inr, String, Bool, true, false, none, some, Option-cases, strip_prefix,
  strip_prefix-append, strip_prefix_sound, if◌then◌else◌, arith,
}

-- strings.HasPrefix
unfoldable pub has_prefix : String → String → Bool
has_prefix s p = elim (strip_prefix p s) [ none ↦ false | some rest ↦ true ]

-- strings.TrimPrefix
unfoldable pub trim_prefix : String → String → String
trim_prefix s p = elim (strip_prefix p s) [ none ↦ s | some rest ↦ rest ]

unfoldable pub clean : String → String
unfolding has_prefix trim_prefix
clean url =
    if has_prefix url "https://"
    then url
    else if has_prefix url "http://"
    then "https://" ++ trim_prefix url "http://"
    else if has_prefix url "//"
    then "https:" ++ url
    else "https://" ++ url

-- The URL without the scheme and the slashes that `clean` looks for.
pub bare : String → String
bare url = elim (strip_prefix "https://" url) [
  | some rest ↦ rest
  | none ↦ elim (strip_prefix "http://" url) [
    | some rest ↦ rest
    | none ↦ elim (strip_prefix "//" url) [ some rest ↦ rest | none ↦ url ]
  ]
]

-- Whatever comes in, the result is "https://" and the URL without its scheme.
pub clean-eq-append : (url : String) → clean url ≡ "https://" ++ bare url
unfolding clean bare
clean-eq-append url = elim (Option-cases (strip_prefix "https://" url)) [
  | inr (rest, h) ↦ let whole = strip_prefix_sound "https://" url rest h in ground arith
  | inl no_s ↦ elim (Option-cases (strip_prefix "http://" url)) [
    | inr (rest, h) ↦ ground arith
    | inl no_p ↦ elim (Option-cases (strip_prefix "//" url)) [
      | inr (rest, h) ↦
          let whole = strip_prefix_sound "//" url rest h in
          let joined = append_assoc "https:" "//" rest in ground arith
      | inl no_q ↦ ground arith
    ]
  ]
]

clean_of_prefix : (rest : String) → clean ("https://" ++ rest) ≡ "https://" ++ rest
unfolding clean
clean_of_prefix rest = ground (arith, strip_prefix-append "https://" rest)

bare_of_prefix : (rest : String) → bare ("https://" ++ rest) ≡ rest
unfolding bare
bare_of_prefix rest = ground (arith, strip_prefix-append "https://" rest)

-- Cleaning a cleaned URL changes nothing; the result depends only on the URL without its scheme, and
-- keeps that.
pub clean_idempotent :
    (url : String)
    → (clean (clean url) ≡ clean url)
      × (clean ("https://" ++ bare url) ≡ clean url)
      × (bare (clean url) ≡ bare url)
clean_idempotent url =
    let shown = clean-eq-append url in
    let again = clean_of_prefix (bare url) in (cc, cc, cc (bare_of_prefix (bare url)))
