-- ===== src/Proxy/Plain.antt =====
-- A plain request to PA3/proxy.c, from its bytes to the page it asks for.
use network_systems.Prelude.{
  ◌+◌, ◌-◌, ◌<◌, ◌≤◌, ◌≡◌, ◌≢◌, ◌∙◌, refl, sym, ap, true, false, [], ◌∷◌, ◌++◌, some, none, arith,
  length, drop, append_assoc, lt→ltb, length-append, ◌==◌, drop-append, ltb,
}
use network_systems.CString.{
  Bytes, codes, cstr_self, strstr, strstr_skip, strchr_absent, strchr_first, strchr, strtok_token,
  strtok_left_whole, avoids, elem,
}
use network_systems.Machine.{ok}
use network_systems.Stream.{bufsize}
use network_systems.Proxy.Hash.{md5_generator}
use network_systems.Proxy.Request.{
  HttpRequest, file_at, split_target, read_request, scan_request, target, default_connection,
}
use network_systems.Proxy.World.{World, Config, Scene, text_of}
use network_systems.Proxy.Relay.{Wanted}
use network_systems.Proxy.Key.{hash_of_fits}
use network_systems.Proxy.Service.{parse_request, handle, dispatch, service, from_cache_or_origin}

-- A file of a host, without a port.
abbrev pub plain_uri : Bytes → Bytes → Bytes
plain_uri host file = codes "http://" ++ (host ++ (b'/' ∷ file))

abbrev pub get_request : Bytes → Bytes → Bytes
get_request host file =
    codes "GET "
    ++ (plain_uri host file
        ++ (codes " HTTP/1.1\r\nHost: " ++ (host ++ codes "\r\nConnection: close\r\n\r\n")))

-- The names can stand in the request line and in the header.
pub record IsPlain (host file : Bytes) : Type 0 where
  pub ne_nil : host ≢ []
  pub no_blank : avoids (codes " ") (plain_uri host file) ≡ true
  pub one_line : avoids (codes "\r\n") host ≡ true
  pub no_port : avoids (codes ":") host ≡ true
  pub no_colon : elem b':' (host ++ b'/' ∷ file) ≡ false
  pub no_slash : elem b'/' host ≡ false
  pub no_nul : elem 0 (get_request host file) ≡ false
  pub no_nul_file : elem 0 file ≡ false
  pub no_host : strstr (plain_uri host file ++ codes " HTTP/1.1") (codes "Host: ") ≡ none
  pub no_connection :
      strstr (plain_uri host file ++ (codes " HTTP/1.1\r\nHost: " ++ host)) (codes "Connection: ")
      ≡ none
  pub short : length (get_request host file) < bufsize

abbrev pub plain_fields : Bytes → Bytes → HttpRequest
plain_fields host file = record {
  method = some (codes "GET");
  uri = some (plain_uri host file);
  version = some (codes "HTTP/1.1");
  connection = some (codes "close");
  hostname = some host;
}

abbrev pub plain_wanted : Bytes → Bytes → Wanted
plain_wanted host file = record {
  request = plain_fields host file;
  version = codes "HTTP/1.1";
  hostname = host;
  file = file;
  port_no = none;
  hash = md5_generator (host ++ codes "/" ++ file);
}

-- What stands behind the URI.
abbrev pub tail : Bytes → Bytes
tail host = codes " HTTP/1.1\r\nHost: " ++ (host ++ codes "\r\nConnection: close\r\n\r\n")

scan_request-words :
    (uri host : Bytes)
    → uri ≢ []
    → avoids (codes " ") uri ≡ true
    → host ≢ []
    → avoids (codes "\r\n") host ≡ true
    → avoids (codes ":") host ≡ true
    → strstr (codes "GET " ++ (uri ++ tail host)) (codes "Host: ")
      ≡ some (codes "Host: " ++ (host ++ codes "\r\nConnection: close\r\n\r\n"))
    → strstr (codes "GET " ++ (uri ++ tail host)) (codes "Connection: ")
      ≡ some (codes "Connection: close\r\n\r\n")
    → scan_request (codes "GET " ++ (uri ++ tail host)) ≡ record {
      method = some (codes "GET");
      uri = some uri;
      version = some (codes "HTTP/1.1");
      connection = some (codes "close");
      hostname = some host;
    }
unfolding scan_request
scan_request-words uri host u blank h line port host_found connection_found = rw (
  host_found,
  connection_found,
  strtok_token (codes " ") uri b' '
      (codes "HTTP/1.1\r\nHost: " ++ (host ++ codes "\r\nConnection: close\r\n\r\n")) u blank refl,
  strtok_token (codes "\r\n") host b'\r' (codes "\nConnection: close\r\n\r\n") h line refl,
  strtok_left_whole (codes ":") host port,
)

file_at-slash :
    (host file : Bytes)
    → elem 0 file ≡ false
    → file_at (some (b'/' ∷ file)) (host ++ b'/' ∷ file) (host ++ b'/' ∷ file) ≡ file
file_at-slash host [] h = refl
file_at-slash host (c ∷ file) h =
    let uri = host ++ b'/' ∷ c ∷ file in
    let slash = b'/' ∷ c ∷ file in
    let long : (length slash == 1) ≡ false = ground arith in
    let index : length uri - length slash + 1 ≡ length (host ++ b'/' ∷ []) =
      omega (arith, length-append host slash, length-append host (b'/' ∷ [])) in
    let dropped : drop (length (host ++ b'/' ∷ [])) uri ≡ c ∷ file =
      ap (drop (length (host ++ b'/' ∷ []))) (sym (append_assoc host (b'/' ∷ []) (c ∷ file)))
      ∙ drop-append (host ++ b'/' ∷ []) (c ∷ file) in
    rw (long, index, dropped) (cstr_self (c ∷ file) h)

split_target-plain :
    (host file : Bytes)
    → elem b':' (host ++ b'/' ∷ file) ≡ false
    → elem b'/' host ≡ false
    → elem 0 file ≡ false
    → split_target (strchr (host ++ b'/' ∷ file) b':') (host ++ b'/' ∷ file)
      ≡ record { file = file; port_no = none }
split_target-plain host file no_colon no_slash no_nul =
    rw (strchr_absent (host ++ b'/' ∷ file) b':' no_colon, strchr_first host file b'/' no_slash)
      (ap (λ f. record { file = f; port_no = none }) (file_at-slash host file no_nul))

module _ (host file : Bytes) (q : IsPlain host file) where
  host_found :
      strstr (get_request host file) (codes "Host: ")
      ≡ some (codes "Host: " ++ (host ++ codes "\r\nConnection: close\r\n\r\n"))
  host_found =
      ap (λ s. strstr s (codes "Host: "))
        (sym (
          append_assoc (plain_uri host file) (codes " HTTP/1.1")
            (codes "\r\nHost: " ++ (host ++ codes "\r\nConnection: close\r\n\r\n"))))
      ∙ strstr_skip (plain_uri host file ++ codes " HTTP/1.1") b'\r'
          (codes "\nHost: " ++ (host ++ codes "\r\nConnection: close\r\n\r\n")) (codes "Host: ")
          refl q.no_host

  connection_found :
      strstr (get_request host file) (codes "Connection: ")
      ≡ some (codes "Connection: close\r\n\r\n")
  connection_found =
      ap (λ s. strstr s (codes "Connection: "))
        (sym (
          append_assoc (plain_uri host file) (codes " HTTP/1.1\r\nHost: " ++ host)
            (codes "\r\nConnection: close\r\n\r\n")))
      ∙ strstr_skip (plain_uri host file ++ (codes " HTTP/1.1\r\nHost: " ++ host)) b'\r'
          (codes "\nConnection: close\r\n\r\n") (codes "Connection: ") refl q.no_connection

  scan_request-get_request : scan_request (get_request host file) ≡ plain_fields host file
  scan_request-get_request =
      scan_request-words (plain_uri host file) host (λ e. omega (arith, ap length e)) q.no_blank
        q.ne_nil q.one_line q.no_port host_found connection_found

  target-plain_uri : target (plain_uri host file) ≡ record { file = file; port_no = none }
  unfolding target
  target-plain_uri = split_target-plain host file q.no_colon q.no_slash q.no_nul_file

  read_request-get_request :
      (beyond : Bytes)
      → read_request (text_of beyond (get_request host file)) ≡ ok (plain_fields host file)
  unfolding read_request
  read_request-get_request beyond =
      let text = get_request host file in
      let short : ltb (length text) bufsize ≡ true = lt→ltb (length text) bufsize q.short in
      let whole : text_of beyond text ≡ text = rw short (cstr_self text q.no_nul) in
      rw (whole, short) (ap ok scan_request-get_request)

  -- A GET request for http://host/file with the headers Host and Connection: close is read
  -- back: the page looked for is the file of the host on port 80, under the hash of host/file.
  -- The names are plain, the request is shorter than the buffer, and there are 20 spare bytes
  -- behind the arrays of the hash.
  pub parse_request-get_request :
      (k : Config) (s : Scene) (w : World)
      → 20 ≤ k.slack (length host + length file + 1)
      → parse_request k s (get_request host file) w
        ≡ from_cache_or_origin k s (plain_wanted host file) w
  unfolding parse_request handle dispatch service default_connection
  parse_request-get_request k s w room =
      rw (read_request-get_request s.beyond, target-plain_uri, hash_of_fits k host file room) refl
