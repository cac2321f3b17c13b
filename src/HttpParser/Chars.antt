-- ===== src/HttpParser/Chars.antt =====
-- The character classes and the two recognisers of http_parser.c.
use c_http_server.Prelude.{
  ℕ, Bool, not, ◌&&◌, ◌||◌, List, [], ◌∷◌, Bytes, codes, ltb, leb, ◌==◌, if◌then◌else◌, length,
  get_or, memcmp_is_zero,
}
use c_http_server.HttpParser.{
  HttpMethod, method_get, method_post, method_put, method_delete, method_head, method_options,
  method_patch, method_other,
}

unfoldable pub is_method_char : ℕ → Bool
is_method_char c = leb b'A' c && leb c b'Z'

unfoldable pub is_path_char : ℕ → Bool
is_path_char c = ltb 0x20 c && not (c == 0x7F)

unfoldable pub is_header_name_char : ℕ → Bool
is_header_name_char c =
    (leb b'A' c && leb c b'Z')
    || (leb b'a' c && leb c b'z')
    || (leb b'0' c && leb c b'9')
    || c == b'-'
    || c == b'_'

unfoldable pub is_header_value_char : ℕ → Bool
is_header_value_char c = c == b'\t' || (leb 0x20 c && not (c == 0x7F))

-- The test of the version token's own bytes in `HTTP_STATE_VERSION`.
abbrev pub is_version_char : ℕ → Bool
is_version_char c = leb 0x21 c && leb c 0x7E

-- The NUL behind the last byte is what an index at the length reads.
abbrev pub byte_at : Bytes → ℕ → ℕ
byte_at v i = get_or v i 0

unfoldable pub is_valid_version : Bytes → Bool
is_valid_version v =
    length v == 8
    && byte_at v 0 == b'H'
    && byte_at v 1 == b'T'
    && byte_at v 2 == b'T'
    && byte_at v 3 == b'P'
    && byte_at v 4 == b'/'
    && leb b'0' (byte_at v 5)
    && leb (byte_at v 5) b'9'
    && byte_at v 6 == b'.'
    && leb b'0' (byte_at v 7)
    && leb (byte_at v 7) b'9'

-- The table `known`.
abbrev pub known : List (Bytes × HttpMethod)
known =
    (codes "GET", method_get)
    ∷ (codes "POST", method_post)
    ∷ (codes "PUT", method_put)
    ∷ (codes "DELETE", method_delete)
    ∷ (codes "HEAD", method_head)
    ∷ (codes "OPTIONS", method_options)
    ∷ (codes "PATCH", method_patch)
    ∷ []

-- The loop of `classify_method` over the rest of the table.
unfoldable pub classify_in : List (Bytes × HttpMethod) → Bytes → HttpMethod
unfolding memcmp_is_zero
classify_in [] m = method_other
classify_in ((name, id) ∷ rest) m =
    if length m == length name && memcmp_is_zero (length m) m name then id else classify_in rest m

unfoldable pub classify_method : Bytes → HttpMethod
unfolding classify_in
classify_method m = classify_in known m
