-- ===== src/Tests/Pages.antt =====
-- Requests to the web server of PA2/server.c.
use network_systems.Prelude.{
  ◌≡◌, ◌<◌, refl, true, false, [], ◌∷◌, ◌++◌, none, some, arith, length, if◌then◌else◌, ap,
}
use network_systems.CString.{Bytes, codes, streq, decimal, avoids}
use network_systems.Machine.{Result, ok}
use network_systems.Machine.Results.{Every}
use network_systems.Stream.{Segments}
use network_systems.Web.Content.{content_type}
use network_systems.Web.Request.{Garbage, scan_request}
use network_systems.Web.Reply.{Connection, send}
use network_systems.Web.Service.{Disk, returned, parse_request, serve, response_header}
use network_systems.Web.Page.{IsPlainUri, HasPage, page_request, parse_request-page_request}
use network_systems.Web.OneAnswer.{AnsweredBy, parse_request-AnsweredBy}
use network_systems.Web.Ends.{serve_ends}
use network_systems.Web.Confined.{SameWww, serve-SameWww}
use network_systems.Web.NoConnection.{IsWord, two_headers, scan_request-two_headers}

abbrev garbage : Garbage
garbage = record { beyond = []; host_buf = []; content_type = [] }

abbrev fresh : Connection
fresh = record { sent = []; is_open = true }

-- One page, and a file beside the directory of the pages.
abbrev disk : Disk
disk = record {
  is_directory = λ path. false;
  file = λ path. if streq path (codes "www/a.txt") then some (codes "hello") else none;
}

abbrev disk_with_secret : Bytes → Disk
disk_with_secret secret = record {
  is_directory = λ path. streq path (codes "home");
  file = λ path. if streq path (codes "passwd") then some secret else disk.file path;
}

a_txt-IsPlainUri : IsPlainUri (codes "/a.txt")
a_txt-IsPlainUri = record {
  ne_nil = λ e. absurd (omega (arith, ap length e));
  no_blank = refl;
  no_nul = refl;
  no_connection = refl;
  below = refl;
  short = omega arith;
}

a_txt-HasPage : HasPage disk (codes "/a.txt") (codes ".txt") (codes "text/plain") (codes "hello")
unfolding content_type decimal
a_txt-HasPage = record {
  no_directory = refl;
  file = refl;
  some_bytes = omega arith;
  fits_path = omega arith;
  has_extension = refl;
  known = refl;
  fits_header = omega arith;
}

parse_request-page_request_example :
    parse_request disk garbage true (page_request (codes "/a.txt")) fresh
    ≡ ok (
        returned (
          send
            (response_header (codes "HTTP/1.1") (codes "text/plain") 5 (codes "keep-alive")
              ++ codes "hello")
            fresh))
parse_request-page_request_example =
    parse_request-page_request disk garbage (codes "/a.txt") (codes ".txt") (codes "text/plain")
      (codes "hello") fresh a_txt-IsPlainUri a_txt-HasPage refl

parse_request-AnsweredBy_example :
    Every (AnsweredBy fresh) (parse_request disk garbage true (page_request (codes "/b.txt")) fresh)
parse_request-AnsweredBy_example =
    parse_request-AnsweredBy disk garbage true (page_request (codes "/b.txt")) fresh

abbrev requests : Segments
requests = page_request (codes "/a.txt") ∷ page_request (codes "/../passwd") ∷ []

serve_ends_example :
    (r : Result Connection) × (serve 500 disk (λ i. garbage) (λ i. true) requests fresh ≡ some r)
serve_ends_example =
    serve_ends 500 disk (λ i. garbage) (λ i. true) requests fresh (omega arith, (omega arith, tt))
      (omega arith)

secret-SameWww : SameWww disk (disk_with_secret (codes "xyz"))
secret-SameWww = record {
  directory = λ uri h. refl;
  file = λ uri h. refl;
  html = λ uri h. refl;
  htm = λ uri h. refl;
}

serve-SameWww_example :
    serve 500 disk (λ i. garbage) (λ i. true) requests fresh
    ≡ serve 500 (disk_with_secret (codes "xyz")) (λ i. garbage) (λ i. true) requests fresh
serve-SameWww_example =
    serve-SameWww disk (disk_with_secret (codes "xyz")) secret-SameWww 500 (λ i. garbage)
      (λ i. true) requests fresh

plain-IsWord :
    (delims text : Bytes) → 0 < length text → avoids delims text ≡ true → IsWord delims text
plain-IsWord delims text h avoid = record {
  ne_nil = λ e. absurd (omega (arith, ap length e));
  avoid = avoid;
}

-- curl asks for a page.
scan_request-two_headers_example :
    scan_request []
      (two_headers (codes "/") (codes "localhost") (codes "User-Agent") (codes "curl/8"))
    ≡ record {
      method = some (codes "GET");
      uri = some (codes "/");
      version = some (codes "HTTP/1.1");
      connection = some (codes "curl/8");
      host = some (codes "localhost");
    }
scan_request-two_headers_example =
    scan_request-two_headers [] (codes "/") (codes "localhost") (codes "User-Agent")
      (codes "curl/8") (plain-IsWord _ _ (omega arith) refl) (plain-IsWord _ _ (omega arith) refl)
      refl (plain-IsWord _ _ (omega arith) refl) refl refl
