-- ===== src/HttpParser/Directives.antt =====
-- `note_connection_header` of http_parser.c against the list syntax of a Connection header.
use c_http_server.Prelude.{
  ℕ, zero, suc, ◌≤◌, ◌<◌, Bool, Bool-cases, true, false, ◌&&◌, ◌||◌, List, [], ◌∷◌, Bytes, codes,
  ◌==◌, ◌≡◌, refl, inl, inr, ◌∙◌, sym, ap, arith, map, if◌then◌else◌, length, drop,
  strncasecmp_is_zero, to_lower,
}
use c_http_server.HttpParser.{
  HttpConnectionDirective, conn_close, conn_keepalive, HttpRequestParser,
}
use c_http_server.HttpParser.Connection.{
  is_blank, skip_separators, token, after_token, trim_end, note_token, scan_tokens,
  note_connection_header,
}

-- `c` in front of the first element.
abbrev onto_first : ℕ → List Bytes → List Bytes
onto_first c [] = (c ∷ []) ∷ []
onto_first c (e ∷ es) = (c ∷ e) ∷ es

-- The elements between the commas of a header value.
unfoldable pub elements : Bytes → List Bytes
elements [] = [] ∷ []
elements (c ∷ cs) = if c == b',' then [] ∷ elements cs else onto_first c (elements cs)

-- Optional whitespace: a space or a tab.
abbrev is_ows : ℕ → Bool
is_ows c = c == 0x20 || c == 0x09

skip_blanks : Bytes → Bytes
skip_blanks [] = []
skip_blanks (c ∷ cs) = if is_ows c then skip_blanks cs else c ∷ cs

unfoldable pub all_blank : Bytes → Bool
all_blank [] = true
all_blank (c ∷ cs) = is_ows c && all_blank cs

-- Up to the last byte that is not blank.
unfoldable pub up_to_blanks : Bytes → Bytes
up_to_blanks [] = []
up_to_blanks (c ∷ cs) = if all_blank (c ∷ cs) then [] else c ∷ up_to_blanks cs

-- An element without the blanks at its ends.
unfoldable pub trim : Bytes → Bytes
unfolding skip_blanks all_blank up_to_blanks
trim e = up_to_blanks (skip_blanks e)

up_to_blanks-blank : (e : Bytes) → all_blank e ≡ true → up_to_blanks e ≡ []
unfolding up_to_blanks all_blank
up_to_blanks-blank [] h = refl
up_to_blanks-blank (c ∷ cs) h = simp h refl

up_to_blanks-kept :
    (e : Bytes) → all_blank e ≡ false → (d : ℕ) × (ds : Bytes) × (up_to_blanks e ≡ d ∷ ds)
unfolding up_to_blanks all_blank
up_to_blanks-kept [] h = absurd cc
up_to_blanks-kept (c ∷ cs) h = (c, up_to_blanks cs, simp h refl)

-- Moving back over the blanks at the end stops behind the last byte that is not one.
trim_end-up_to_blanks : (e : Bytes) → trim_end e ≡ up_to_blanks e
unfolding trim_end up_to_blanks all_blank
trim_end-up_to_blanks [] = refl
trim_end-up_to_blanks (c ∷ cs) = elim (Bool-cases (all_blank cs)) [
  | inl blank ↦
      let gone = up_to_blanks-blank cs blank in
      simp (trim_end-up_to_blanks cs, gone, blank)
        (elim (Bool-cases (is_ows c)) [ inl ows ↦ simp ows refl | inr other ↦ simp other refl ])
  | inr kept ↦
      let (d, ds, e) = up_to_blanks-kept cs kept in
      simp (trim_end-up_to_blanks cs, e, kept)
        (elim (Bool-cases (is_ows c)) [ inl ows ↦ simp ows refl | inr other ↦ simp other refl ])
]

-- The bytes of two texts are the same.
unfoldable pub same_bytes : Bytes → Bytes → Bool
same_bytes [] [] = true
same_bytes (x ∷ xs) (y ∷ ys) = x == y && same_bytes xs ys
same_bytes xs ys = false

-- What an element asks for, whatever the case of its letters; any other leaves the directive.
unfoldable pub heed : HttpConnectionDirective → Bytes → HttpConnectionDirective
unfolding same_bytes trim to_lower
heed directive e =
    if same_bytes (map to_lower (trim e)) (codes "close")
    then conn_close
    else if same_bytes (map to_lower (trim e)) (codes "keep-alive")
    then conn_keepalive
    else directive

unfoldable pub heed_all : HttpConnectionDirective → List Bytes → HttpConnectionDirective
unfolding heed
heed_all directive [] = directive
heed_all directive (e ∷ es) = heed_all (heed directive e) es

pub strncasecmp-same_bytes :
    (a b : Bytes)
    → (length a == length b && strncasecmp_is_zero (length b) a b)
      ≡ same_bytes (map to_lower a) (map to_lower b)
unfolding strncasecmp_is_zero same_bytes
strncasecmp-same_bytes [] [] = refl
strncasecmp-same_bytes [] (y ∷ b) = ground arith
strncasecmp-same_bytes (x ∷ a) [] = ground arith
strncasecmp-same_bytes (x ∷ a) (y ∷ b) = ground (arith, strncasecmp-same_bytes a b)

note_token-heed :
    (directive : HttpConnectionDirective) (e : Bytes)
    → note_token directive (trim e) ≡ heed directive e
unfolding note_token heed
note_token-heed directive e = simp (
  strncasecmp-same_bytes (trim e) (codes "close"),
  strncasecmp-same_bytes (trim e) (codes "keep-alive"),
)

-- The elements behind the first comma.
abbrev later_elements : Bytes → List Bytes
later_elements [] = []
later_elements (c ∷ cs) = elements cs

elements-token : (v : Bytes) → elements v ≡ token v ∷ later_elements (after_token v)
unfolding elements token after_token
elements-token [] = refl
elements-token (c ∷ cs) = elim (Bool-cases (c == b',')) [
  | inl comma ↦ simp comma
  | inr other ↦ simp (other, elements-token cs)
]

heed_blank :
    (d : HttpConnectionDirective) (c : ℕ) (e : Bytes)
    → is_blank c ≡ true
    → heed d (c ∷ e) ≡ heed d e
unfolding heed
heed_blank d c e h = rw h

heed_nil : (d : HttpConnectionDirective) → heed d [] ≡ d
unfolding heed trim skip_blanks trim_end same_bytes
heed_nil d = refl

heed_all-separator :
    (d : HttpConnectionDirective) (c : ℕ) (cs : Bytes)
    → (is_blank c || c == b',') ≡ true
    → heed_all d (elements (c ∷ cs)) ≡ heed_all d (elements cs)
unfolding heed_all elements
heed_all-separator d c cs h = elim (Bool-cases (c == b',')) [
  | inl comma ↦ simp comma (ap (λ e. heed_all e (elements cs)) (heed_nil d))
  | inr other ↦
      simp (other, elements-token cs)
        (ap (λ e. heed_all e (later_elements (after_token cs)))
          (heed_blank d c (token cs) (ground arith)))
]

heed_all-skip :
    (d : HttpConnectionDirective) (v : Bytes)
    → heed_all d (elements v) ≡ heed_all d (elements (skip_separators v))
unfolding skip_separators
heed_all-skip d [] = refl
heed_all-skip d (c ∷ cs) = elim (Bool-cases (is_blank c || c == b',')) [
  | inl skipped ↦ simp skipped (heed_all-separator d c cs skipped ∙ heed_all-skip d cs)
  | inr kept ↦ simp kept
]

heed_all-after :
    (d : HttpConnectionDirective) (v : Bytes)
    → heed_all d (later_elements (after_token v)) ≡ heed_all d (elements (after_token v))
unfolding after_token heed_all elements
heed_all-after d [] = rw heed_nil
heed_all-after d (c ∷ cs) = elim (Bool-cases (c == b',')) [
  | inl comma ↦ simp comma (ap (λ e. heed_all e (elements cs)) (sym (heed_nil d)))
  | inr other ↦ simp other (heed_all-after d cs)
]

-- What the cursor stands on behind the separators.
abbrev StartsToken : Bytes → Type 0
StartsToken [] = Unit
StartsToken (c ∷ cs) = (is_blank c || c == b',') ≡ false

skip-StartsToken : (v : Bytes) → StartsToken (skip_separators v)
unfolding skip_separators
skip-StartsToken [] = tt
skip-StartsToken (c ∷ cs) = elim (Bool-cases (is_blank c || c == b',')) [
  | inl skipped ↦ simp skipped (skip-StartsToken cs)
  | inr kept ↦ simp kept refl
]

skip-length : (v : Bytes) → length (skip_separators v) ≤ length v
unfolding skip_separators
skip-length [] = omega arith
skip-length (c ∷ cs) = ground (arith, skip-length cs)

after_token-length : (v : Bytes) → length (after_token v) ≤ length v
unfolding after_token
after_token-length [] = omega arith
after_token-length (c ∷ cs) = ground (arith, after_token-length cs)

trim-token :
    (c : ℕ) (cs : Bytes)
    → (is_blank c || c == b',') ≡ false
    → trim (token (c ∷ cs)) ≡ trim_end (token (c ∷ cs))
unfolding trim skip_blanks token
trim-token c cs h =
    let kept : skip_blanks (token (c ∷ cs)) ≡ token (c ∷ cs) = ground arith in
    ap up_to_blanks kept ∙ sym (trim_end-up_to_blanks (token (c ∷ cs)))

-- One round of the outer loop, where the cursor stands on a token.
heed_all-token :
    (d : HttpConnectionDirective) (c : ℕ) (cs : Bytes)
    → (is_blank c || c == b',') ≡ false
    → heed_all d (elements (c ∷ cs))
      ≡ heed_all (note_token d (trim_end (token (c ∷ cs)))) (elements (after_token (c ∷ cs)))
unfolding heed_all
heed_all-token d c cs h =
    rw elements-token (rw (← trim-token c cs h) (rw note_token-heed (heed_all-after _ (c ∷ cs))))

after_token-shorter :
    (c : ℕ) (cs : Bytes)
    → (is_blank c || c == b',') ≡ false
    → length (after_token (c ∷ cs)) ≤ length cs
unfolding after_token
after_token-shorter c cs h = ground (arith, after_token-length cs)

module _ (fuel : ℕ)
    (rest : (v : Bytes) (d : HttpConnectionDirective)
      → length v < fuel
      → scan_tokens fuel v d ≡ heed_all d (elements v)) where
  scan_round :
      (v w : Bytes) (d : HttpConnectionDirective)
      → skip_separators v ≡ w
      → StartsToken w
      → length w ≤ fuel
      → scan_tokens (suc fuel) v d ≡ heed_all d (elements w)
  unfolding scan_tokens
  scan_round v [] d e s l = rw (e, scan_tokens) (unfold heed_all elements in sym (heed_nil d))
  scan_round v (c ∷ cs) d e s l =
      rw (e, scan_tokens)
        (rest _ _ (omega (arith, after_token-shorter c cs s)) ∙ sym (heed_all-token d c cs s))

scan_tokens-heed_all :
    (fuel : ℕ) (v : Bytes) (d : HttpConnectionDirective)
    → length v < fuel
    → scan_tokens fuel v d ≡ heed_all d (elements v)
scan_tokens-heed_all zero v d h = elim h [ ]
scan_tokens-heed_all (suc fuel) v d h =
    scan_round fuel (scan_tokens-heed_all fuel) v (skip_separators v) d refl (skip-StartsToken v)
      (omega (arith, skip-length v))
    ∙ sym (heed_all-skip d v)

-- The scan of a Connection header's value, with its cursors, is the reading of a comma-separated
-- list: each element, without the spaces and tabs at its ends and in any case of its letters, sets
-- the directive if it is "close" or "keep-alive", so the last such element wins; the fuel suffices.
pub note_connection_header-heed_all :
    (p : HttpRequestParser)
    → note_connection_header p ≡ record p {
      connection_directive =
          heed_all p.connection_directive (elements (drop p.header_name_len p.header_line));
    }
unfolding note_connection_header
note_connection_header-heed_all p =
    ap (λ d. record p { connection_directive = d })
      (scan_tokens-heed_all (suc (length (drop p.header_name_len p.header_line)))
        (drop p.header_name_len p.header_line) p.connection_directive (omega arith))
