-- ===== src/HttpParser/KeepAlive.antt =====
-- `http_parser_should_keep_alive` of http_parser.c on the requests of the grammar.
use c_http_server.Prelude.{
  Bool, Bool-cases, inl, inr, true, false, ◌&&◌, List, [], ◌∷◌, Bytes, codes, ◌==◌, leb, ◌≡◌, refl,
  ◌∙◌, ap, arith, map, if◌then◌else◌, to_lower, Option, none, some,
}
use c_http_server.HttpParser.{
  HttpConnectionDirective, conn_unspecified, conn_close, conn_keepalive, HttpRequestParser,
  state_done,
}
use c_http_server.HttpParser.Execute.{keep_alive_by, http_parser_should_keep_alive}
use c_http_server.HttpParser.Directives.{elements, trim, same_bytes, heed, heed_all}
use c_http_server.HttpParser.Grammar.{
  Header, Request, directive_after, after_header, after_headers, after_request_line, parsed,
}

-- What one element of a Connection header asks for.
pub wish : Bytes → Option Bool
wish e =
    if same_bytes (map to_lower (trim e)) (codes "close")
    then some false
    else if same_bytes (map to_lower (trim e)) (codes "keep-alive")
    then some true
    else none

abbrev later : Option Bool → Option Bool → Option Bool
later first (some w) = some w
later first none = first

-- The last wish among some elements, after an earlier one.
pub last_wish : Option Bool → List Bytes → Option Bool
last_wish w [] = w
last_wish w (e ∷ es) = last_wish (later w (wish e)) es

-- The last wish of the Connection headers of a request.
pub wish_of : Option Bool → List Header → Option Bool
wish_of w [] = w
wish_of w (h ∷ hs) =
    wish_of
      (if same_bytes (map to_lower h.name) (codes "connection")
        then last_wish w (elements h.value)
        else w)
      hs

abbrev pub wish_or : Option Bool → Bool → Bool
wish_or (some w) d = w
wish_or none d = d

-- The wish that a directive stands for.
abbrev read : HttpConnectionDirective → Option Bool
read conn_close = some false
read conn_keepalive = some true
read conn_unspecified = none

heed-wish : (d : HttpConnectionDirective) (e : Bytes) → read (heed d e) ≡ later (read d) (wish e)
unfolding heed wish
heed-wish d e = ground arith

heed_all-last_wish :
    (d : HttpConnectionDirective) (es : List Bytes) → read (heed_all d es) ≡ last_wish (read d) es
unfolding heed_all last_wish
heed_all-last_wish d [] = refl
heed_all-last_wish d (e ∷ es) =
    heed_all-last_wish (heed d e) es ∙ ap (λ w. last_wish w es) (heed-wish d e)

connection_lower : map to_lower (codes "Connection") ≡ codes "connection"
unfolding to_lower
connection_lower = refl

directive_after-last_wish :
    (d : HttpConnectionDirective) (h : Header)
    → read (directive_after d h) ≡ (
        if same_bytes (map to_lower h.name) (codes "connection")
        then last_wish (read d) (elements h.value)
        else read d)
unfolding directive_after
directive_after-last_wish d h =
    rw connection_lower (elim (Bool-cases (same_bytes (map to_lower h.name) (codes "connection"))) [
      | inl named ↦ simp named (heed_all-last_wish d (elements h.value))
      | inr other ↦ simp other
    ])

after_headers-wish_of :
    (p : HttpRequestParser) (hs : List Header)
    → read (after_headers p hs).connection_directive ≡ wish_of (read p.connection_directive) hs
unfolding after_headers wish_of
after_headers-wish_of p [] = refl
after_headers-wish_of p (h ∷ hs) =
    after_headers-wish_of (after_header p h) hs
    ∙ ap (λ w. wish_of w hs)
        (unfold after_header in directive_after-last_wish p.connection_directive h)

after_headers-version :
    (p : HttpRequestParser) (hs : List Header)
    → ((after_headers p hs).http_major ≡ p.http_major)
      × ((after_headers p hs).http_minor ≡ p.http_minor)
unfolding after_headers after_header
after_headers-version p [] = (refl, refl)
after_headers-version p (h ∷ hs) = after_headers-version (after_header p h) hs

keep_alive_by-wish :
    (d : HttpConnectionDirective) (p : HttpRequestParser)
    → keep_alive_by d p ≡ wish_or (read d) (p.http_major == 1 && leb 1 p.http_minor)
unfolding keep_alive_by
keep_alive_by-wish conn_close p = refl
keep_alive_by-wish conn_keepalive p = refl
keep_alive_by-wish conn_unspecified p = refl

-- A parsed request keeps the connection exactly as its last "close" or "keep-alive" element asks,
-- among all elements of all its Connection headers in order; with no such element, exactly if its
-- version is HTTP/1.x with x at least 1.
pub http_parser_should_keep_alive-parsed :
    (r : Request)
    → http_parser_should_keep_alive (parsed r)
      ≡ wish_or (wish_of none r.headers) (r.major == 1 && leb 1 r.minor)
unfolding http_parser_should_keep_alive parsed after_request_line
http_parser_should_keep_alive-parsed r =
    let q = after_headers (after_request_line r) r.headers in
    let v = after_headers-version (after_request_line r) r.headers in
    keep_alive_by-wish q.connection_directive (record q { state = state_done })
    ∙ rw (after_headers-wish_of (after_request_line r) r.headers, v.0, v.1)
