-- ===== src/StaticFiles/Tests.antt =====
-- Paths run through static_files.c, and its theorems at them.
use c_http_server.Prelude.{
  ◌∷◌, ◌++◌, map, to_lower, codes, ◌≡◌, ◌≢◌, ◌<◌, ◌↔◌, ◌⊎◌, refl, some, none, true, false, length,
  arith,
}
use c_http_server.StaticFiles.{path_max, resolve_ok, resolve_illegal, static_file_ok}
use c_http_server.StaticFiles.Decode.{decode_path}
use c_http_server.StaticFiles.Join.{
  join_under_root, join_loop, skip_slashes, segment, after_segment,
}
use c_http_server.StaticFiles.Root.{is_within_root}
use c_http_server.StaticFiles.Descriptors.{holding, none_open}
use c_http_server.StaticFiles.Open.{Kernel, no_file, static_file_open}
use c_http_server.StaticFiles.Encodes.{Encodes, decode_path-Encodes}
use c_http_server.StaticFiles.Pieces.{segments, climbs}
use c_http_server.StaticFiles.Segments.{Joins, join_under_root-Joins}
use c_http_server.StaticFiles.Confined.{IsBelow, is_within_root-IsBelow}
use c_http_server.StaticFiles.Serves.{Serves, static_file_open-Serves, static_file_open-climbs}
use c_http_server.StaticFiles.ContentType.{table, type_in, content_type_for}
use c_http_server.StaticFiles.Extensions.{content_type_for-extension}

decode_dots : decode_path (codes "/%2e%2E/a?b=%") path_max ≡ resolve_ok (codes "/../a")
unfolding decode_path
decode_dots = refl

decode_nul : decode_path (codes "/a%00") path_max ≡ resolve_illegal
unfolding decode_path
decode_nul = refl

join_names :
    join_under_root (codes "/srv/www") (codes "//a/./b.txt") path_max
    ≡ resolve_ok (codes "/srv/www/a/b.txt")
unfolding join_under_root join_loop skip_slashes segment after_segment
join_names = refl

join_climb : join_under_root (codes "/srv/www") (codes "/a/../b") path_max ≡ resolve_illegal
unfolding join_under_root join_loop skip_slashes segment after_segment
join_climb = refl

-- A kernel with one file, opened as descriptor 7.
abbrev kernel : Kernel
kernel = record {
  answer_open = λ path. some 7;
  answer_readlink = λ fd. some (codes "/srv/www/a.html");
  answer_fstat = λ fd. some (record { is_reg = true; is_dir = false; st_size = 12 });
  answer_realpath = λ path. some path;
  answer_stat = λ path. none;
}

-- A kernel that refuses everything.
abbrev closed_kernel : Kernel
closed_kernel = record {
  answer_open = λ path. none;
  answer_readlink = λ fd. none;
  answer_fstat = λ fd. none;
  answer_realpath = λ path. none;
  answer_stat = λ path. none;
}

decode_path-Encodes_example :
    (decode_path (codes "/%2e%2E/a?b=%") path_max ≡ resolve_ok (codes "/../a"))
    ↔ (Encodes (codes "/%2e%2E/a?b=%") (codes "/../a") × (length (codes "/../a") < path_max))
decode_path-Encodes_example = decode_path-Encodes (codes "/%2e%2E/a?b=%") (codes "/../a")

join_under_root-Joins_example :
    (join_under_root (codes "/srv/www") (codes "//a/./b.txt") path_max
      ≡ resolve_ok (codes "/srv/www/a/b.txt"))
    ↔ Joins (codes "/srv/www") (codes "//a/./b.txt") (codes "/srv/www/a/b.txt")
join_under_root-Joins_example =
    join_under_root-Joins (codes "/srv/www") (codes "//a/./b.txt") (codes "/srv/www/a/b.txt")

is_within_root-IsBelow_example :
    (is_within_root (codes "/srv/www") (codes "/srv/www-backup/x") ≡ true)
    ↔ IsBelow (codes "/srv/www") (codes "/srv/www-backup/x")
is_within_root-IsBelow_example =
    is_within_root-IsBelow (codes "/srv/www") (codes "/srv/www-backup/x") (omega arith)

static_file_open-Serves_example :
    (((static_file_open kernel (codes "/srv/www") (codes "/a.html") (holding 3 none_open)).result
        ≢ static_file_ok)
      × ((static_file_open kernel (codes "/srv/www") (codes "/a.html") (holding 3 none_open)).file
          ≡ no_file)
      × ((static_file_open kernel
            (codes "/srv/www")
            (codes "/a.html")
            (holding 3 none_open)).descriptors
          ≡ holding 3 none_open))
    ⊎ Serves kernel
        (codes "/srv/www")
        (codes "/a.html")
        (holding 3 none_open)
        (static_file_open kernel (codes "/srv/www") (codes "/a.html") (holding 3 none_open))
static_file_open-Serves_example =
    static_file_open-Serves kernel (codes "/srv/www") (codes "/a.html") (holding 3 none_open)

climbing : climbs (segments (codes "/../a")) ≡ true
unfolding climbs segments
climbing = refl

static_file_open-climbs_example :
    (static_file_open kernel (codes "/srv/www") (codes "/%2e%2E/a?b=%") (holding 3 none_open)
      ≡ static_file_open closed_kernel
          (codes "/srv/www")
          (codes "/%2e%2E/a?b=%")
          (holding 3 none_open))
    × ((static_file_open kernel
          (codes "/srv/www")
          (codes "/%2e%2E/a?b=%")
          (holding 3 none_open)).result
        ≢ static_file_ok)
static_file_open-climbs_example =
    static_file_open-climbs kernel closed_kernel (codes "/srv/www") (codes "/%2e%2E/a?b=%")
      (codes "/../a") (holding 3 none_open) (decode_path-Encodes_example.0 decode_dots).0 climbing

content_type_for-extension_example :
    content_type_for (codes "/srv/v1.2" ++ (b'/' ∷ codes "logo.min" ++ (b'.' ∷ codes "SVG")))
    ≡ type_in table (map to_lower (b'.' ∷ codes "SVG"))
content_type_for-extension_example =
    content_type_for-extension (codes "/srv/v1.2") (codes "logo.min") (codes "SVG") (ground arith)
      (ground arith) (ground arith)
