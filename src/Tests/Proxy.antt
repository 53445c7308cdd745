-- ===== src/Tests/Proxy.antt =====
-- Requests to the proxy of PA3/proxy.c.
use network_systems.Prelude.{
  ◌+◌, ◌++◌, ◌∷◌, [], ℕ, ◌%◌, ◌^◌, ◌||◌, ◌≡◌, refl, true, [], ◌∷◌, none, some, arith, length,
  if◌then◌else◌, ap,
}
use network_systems.Proxy.Content.{content_type, filename_ext}
use network_systems.Proxy.Cache.{check_cache}
use network_systems.CString.{decimal, codes, streq}
use network_systems.Machine.{ok}
use network_systems.Web.Reply.{Connection}
use network_systems.Proxy.World.{fgets_lines, is_listed, World, Internet, Config, Scene, is_blocked}
use network_systems.Proxy.Relay.{Wanted, origin_request}
use network_systems.Proxy.Hash.{hash_loop}
use network_systems.Proxy.Hash.Laws.{sign_part, horner, hash_loop-horner}
use network_systems.Proxy.Key.{hash_of_fits, length-md5_generator}
use network_systems.Proxy.Cache.Laws.{CanServe, Served}
use network_systems.Proxy.Fetch.{HasOrigin, fetched, from_cache_or_origin-Served}
use network_systems.Proxy.Plain.{IsPlain, get_request, plain_wanted, parse_request-get_request}
use network_systems.Proxy.Page.{for_client, parse_request_twice}
use network_systems.Proxy.Refusals.{refused, parse_request-refused}
use network_systems.Proxy.Answer.{answer}
use network_systems.Proxy.Service.{returned, parse_request, from_cache_or_origin, hash_of}

abbrev pub config : Config
config = record { timeout = 60; blocklist = some (codes "bad.com\n"); slack = λ n. 32 }

-- Two hosts have an address; each server has one page.
abbrev net : Internet
net = record {
  resolve = λ host.
      if streq host (codes "a.com") || streq host (codes "bad.com")
      then some (codes "10.0.0.1")
      else none;
  connect = λ ip port. some (λ text. answer 5 (codes "he") ∷ codes "llo" ∷ []);
}

abbrev pub at_time : ℕ → Scene
at_time t = record { net = net; now = t; running = true; beyond = [] }

abbrev fresh_client : Connection
fresh_client = record { sent = []; is_open = true }

abbrev pub empty_world : World
empty_world = record { cache = λ name. none; client = fresh_client; asked = [] }

a_com-IsPlain : IsPlain (codes "a.com") (codes "x.css")
a_com-IsPlain = record {
  ne_nil = λ e. absurd (omega (arith, ap length e));
  no_blank = refl;
  one_line = refl;
  no_port = refl;
  no_colon = refl;
  no_slash = refl;
  no_nul = refl;
  no_nul_file = refl;
  no_host = refl;
  no_connection = refl;
  short = omega arith;
}

bad_com-IsPlain : IsPlain (codes "bad.com") []
bad_com-IsPlain = record {
  ne_nil = λ e. absurd (omega (arith, ap length e));
  no_blank = refl;
  one_line = refl;
  no_port = refl;
  no_colon = refl;
  no_slash = refl;
  no_nul = refl;
  no_nul_file = refl;
  no_host = refl;
  no_connection = refl;
  short = omega arith;
}

abbrev pub page : Wanted
page = plain_wanted (codes "a.com") (codes "x.css")

page-CanServe : (t : ℕ) → CanServe (at_time t) page (codes "close") (codes "hello")
unfolding content_type filename_ext decimal
page-CanServe t = record {
  version = omega arith;
  has_connection = refl;
  short_connection = omega arith;
  path = omega (arith, length-md5_generator (codes "a.com/x.css"));
  header = omega arith;
}

a_com-HasOrigin :
    HasOrigin config (at_time 100) page (codes "10.0.0.1") (codes "he") (codes "llo" ∷ [])
unfolding is_blocked fgets_lines is_listed answer origin_request decimal
a_com-HasOrigin = record {
  server = λ text. answer 5 (codes "he") ∷ codes "llo" ∷ [];
  resolves = refl;
  allowed = refl;
  connects = refl;
  answers = refl;
  some_bytes = omega arith;
  full = (omega arith, tt);
  one_segment = omega arith;
  request_fits = omega arith;
  name_fits = omega arith;
}

parse_request_twice_example :
    (w₁ : World) × (w₂ : World) × (parse_request config
        (at_time 100)
        (get_request (codes "a.com") (codes "x.css"))
        empty_world
      ≡ ok (returned w₁))
    × (parse_request config
          (at_time 150)
          (get_request (codes "a.com") (codes "x.css"))
          (for_client fresh_client w₁)
        ≡ ok (returned w₂))
    × Served
        (at_time 100)
        page
        (codes "close")
        (codes "hello")
        (fetched (at_time 100) page (codes "10.0.0.1") (codes "hello") empty_world)
        w₁
    × Served (at_time 150) page (codes "close") (codes "hello") (for_client fresh_client w₁) w₂
unfolding check_cache
parse_request_twice_example =
    parse_request_twice config (at_time 100) (at_time 150) empty_world fresh_client (codes "a.com")
      (codes "x.css") (codes "10.0.0.1") (codes "he") (codes "llo" ∷ []) a_com-IsPlain (omega arith)
      a_com-HasOrigin refl (page-CanServe 100) (page-CanServe 150) (omega arith)

parse_request-get_request_example :
    parse_request config (at_time 7) (get_request (codes "bad.com") []) empty_world
    ≡ from_cache_or_origin config (at_time 7) (plain_wanted (codes "bad.com") []) empty_world
parse_request-get_request_example =
    parse_request-get_request (codes "bad.com") [] bad_com-IsPlain config (at_time 7) empty_world
      (omega arith)

parse_request-refused_example :
    parse_request config (at_time 7) (get_request (codes "bad.com") []) empty_world
    ≡ ok (returned (refused empty_world))
unfolding is_blocked fgets_lines is_listed check_cache
parse_request-refused_example =
    parse_request-refused config (at_time 7) empty_world (codes "bad.com") [] (codes "10.0.0.1")
      bad_com-IsPlain (omega arith) refl refl refl

abbrev cached_world : World
cached_world = record empty_world {
  cache = λ name. some (record { content = codes "hello"; modified = 100 });
}

from_cache_or_origin-Served_example :
    (w' : World) × (from_cache_or_origin config (at_time 160) page cached_world ≡ ok (returned w'))
    × Served (at_time 160) page (codes "close") (codes "hello") cached_world w'
from_cache_or_origin-Served_example =
    from_cache_or_origin-Served config (at_time 160) page cached_world (codes "close")
      (record { content = codes "hello"; modified = 100 }) (page-CanServe 160) refl (omega arith)

hash_loop-horner_example :
    (hash_loop 5381 (codes "caf" ++ 195 ∷ 169 ∷ []) + 8704) % 2 ^ 64
    ≡ horner 5381 (codes "caf" ++ 195 ∷ 169 ∷ []) % 2 ^ 64
unfolding horner sign_part
hash_loop-horner_example = hash_loop-horner (codes "caf" ++ 195 ∷ 169 ∷ [])

hash_of_fits_example : hash_of config (codes "a.com") (codes "x.css") ≡ ok (page.hash)
hash_of_fits_example = hash_of_fits config (codes "a.com") (codes "x.css") (omega arith)
