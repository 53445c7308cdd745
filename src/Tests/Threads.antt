-- ===== src/Tests/Threads.antt =====
-- Requests to the web server of PA2/threaded_server.c.
use network_systems.Machine.{ok}
use network_systems.Prelude.{
  ◌≡◌, refl, false, [], ◌∷◌, ◌++◌, none, some, arith, length, if◌then◌else◌, ap,
}
use network_systems.CString.{codes, streq, decimal}
use network_systems.Web.Request.{Garbage}
use network_systems.Web.Reply.{send, close}
use network_systems.Web.Service.{Disk}
use network_systems.Threaded.Content.{content_type}
use network_systems.Threaded.Service.{served, exited, fresh, parse_request}
use network_systems.Threaded.Page.{
  page_request, IsPlainUri, Page, HasPage, page_answer, parse_request-missing, parse_request-page,
}

abbrev garbage : Garbage
garbage = record { beyond = []; host_buf = []; content_type = [] }

abbrev disk : Disk
disk = record {
  is_directory = λ path. false;
  file = λ path. if streq path (codes "www/a.txt") then some (codes "hello") else none;
}

abbrev a_txt : Page
a_txt = record {
  uri = codes "/a.txt";
  extension = codes ".txt";
  type = codes "text/plain";
  payload = codes "hello";
}

a_txt-IsPlainUri : IsPlainUri disk (codes "/a.txt")
a_txt-IsPlainUri = record {
  ne_nil = λ e. absurd (omega (arith, ap length e));
  no_blank = refl;
  no_nul = refl;
  below = refl;
  not_root = refl;
  no_directory = refl;
  fits_path = omega arith;
  short = omega arith;
}

favicon-IsPlainUri : IsPlainUri disk (codes "/favicon.ico")
favicon-IsPlainUri = record {
  ne_nil = λ e. absurd (omega (arith, ap length e));
  no_blank = refl;
  no_nul = refl;
  below = refl;
  not_root = refl;
  no_directory = refl;
  fits_path = omega arith;
  short = omega arith;
}

a_txt-HasPage : HasPage disk a_txt
unfolding content_type decimal
a_txt-HasPage = record {
  plain = a_txt-IsPlainUri;
  file = refl;
  some_bytes = omega arith;
  has_extension = refl;
  known = refl;
  fits_header = omega arith;
}

-- A browser asks for /favicon.ico.
parse_request-missing_example :
    parse_request disk garbage (page_request (codes "/favicon.ico")) fresh
    ≡ ok (
        exited (
          close (
            send
              (codes
                  "HTTP/1.1 404 Not Found\r\nContent-Type: text/plain\r\nContent-Length: 18\r\n\r\n404 Page Not Found"
                ++ 0 ∷ [])
              fresh)))
parse_request-missing_example =
    parse_request-missing disk garbage (codes "/favicon.ico") favicon-IsPlainUri refl

parse_request-page_example :
    parse_request disk garbage (page_request (codes "/a.txt")) fresh
    ≡ ok (served (page_answer a_txt))
parse_request-page_example = parse_request-page disk garbage a_txt a_txt-HasPage
