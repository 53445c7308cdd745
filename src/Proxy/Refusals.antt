-- ===== src/Proxy/Refusals.antt =====
-- The requests and the answers that PA3/proxy.c does not serve.
use network_systems.Prelude.{
  ap, ◌+◌, ◌<◌, ◌≤◌, ◌≡◌, refl, true, false, none, some, [], ◌∷◌, length, ◌∙◌, arith, lt→ltb,
  Option,
}
use network_systems.CString.{strtok_whole, Bytes, codes, cstr_self, elem, avoids}
use network_systems.Machine.{Result, ok, err, null_pointer, deref, ◌>>=◌}
use network_systems.Stream.{bufsize}
use network_systems.Web.Reply.{send, close, padded}
use network_systems.Proxy.World.{World, Config, Scene, is_blocked, text_of}
use network_systems.Proxy.Reply.{forbidden, forbidden_text, answer_error}
use network_systems.Proxy.Request.{read_request, scan_request}
use network_systems.Proxy.Cache.{check_cache}
use network_systems.Proxy.Relay.{relay}
use network_systems.Proxy.Service.{
  Outcome, returned, parse_request, from_cache_or_origin, after_relay, handle,
}
use network_systems.Proxy.Plain.{IsPlain, get_request, plain_wanted, parse_request-get_request}

-- The world in which the client has the error response 403 and its connection is closed.
abbrev pub refused : World → World
refused w = record w {
  client = close (
      send
        (padded (
          codes
            "HTTP/1.1 403 Forbidden\r\nContent-Type: text/plain\r\nContent-Length: 20\r\nConnection: close\r\n\r\nThis site is blocked"))
        w.client);
}

from_cache_or_origin-refused :
    (k : Config) (s : Scene) (w : World) (host file ip : Bytes)
    → check_cache k s.now w.cache (plain_wanted host file).hash ≡ false
    → s.net.resolve host ≡ some ip
    → is_blocked k.blocklist ip host ≡ ok true
    → from_cache_or_origin k s (plain_wanted host file) w ≡ ok (returned (refused w))
unfolding from_cache_or_origin after_relay relay forbidden answer_error forbidden_text
from_cache_or_origin-refused k s w host file ip miss found listed = rw (miss, found, listed) refl

-- A plain request for a page that is not cached, of a host that has an address and is on the
-- blocklist, is answered with 403, the connection is closed, and nothing is asked or cached.
pub parse_request-refused :
    (k : Config) (s : Scene) (w : World) (host file ip : Bytes)
    → IsPlain host file
    → 20 ≤ k.slack (length host + length file + 1)
    → check_cache k s.now w.cache (plain_wanted host file).hash ≡ false
    → s.net.resolve host ≡ some ip
    → is_blocked k.blocklist ip host ≡ ok true
    → parse_request k s (get_request host file) w ≡ ok (returned (refused w))
parse_request-refused k s w host file ip plain room miss found listed =
    parse_request-get_request host file plain k s w room
    ∙ from_cache_or_origin-refused k s w host file ip miss found listed

from_cache_or_origin_unknown :
    (k : Config) (s : Scene) (w : World) (host file : Bytes)
    → check_cache k s.now w.cache (plain_wanted host file).hash ≡ false
    → s.net.resolve host ≡ none
    → from_cache_or_origin k s (plain_wanted host file) w ≡ err null_pointer
unfolding from_cache_or_origin relay
from_cache_or_origin_unknown k s w host file miss unknown = rw (miss, unknown) refl

-- A plain request for a page that is not cached, of a host that has no address, breaks the
-- process with a null pointer.
pub parse_request_unknown :
    (k : Config) (s : Scene) (w : World) (host file : Bytes)
    → IsPlain host file
    → 20 ≤ k.slack (length host + length file + 1)
    → check_cache k s.now w.cache (plain_wanted host file).hash ≡ false
    → s.net.resolve host ≡ none
    → parse_request k s (get_request host file) w ≡ err null_pointer
parse_request_unknown k s w host file plain room miss unknown =
    parse_request-get_request host file plain k s w room
    ∙ from_cache_or_origin_unknown k s w host file miss unknown

-- The method is the whole line, and there is no version.
version-one_word :
    (line : Bytes) → avoids (codes " ") line ≡ true → (scan_request line).version ≡ none
unfolding scan_request
version-one_word [] h = refl
version-one_word (c ∷ line) h =
    rw (strtok_whole (codes " ") (c ∷ line) (λ e. omega (arith, ap length e)) h) refl

-- A null pointer, there or behind it.
derefs :
    (o : Option Bytes) {r : Result Outcome}
    → r ≡ err null_pointer
    → (deref o >>= λ m. r) ≡ err null_pointer
derefs none e = refl
derefs (some m) e = e

-- A request without a blank, shorter than the buffer, breaks the process with a null pointer; it
-- gets no 400.
pub parse_request_one_word :
    (k : Config) (s : Scene) (w : World) (line : Bytes)
    → elem 0 line ≡ false
    → avoids (codes " ") line ≡ true
    → length line < bufsize
    → parse_request k s line w ≡ err null_pointer
unfolding parse_request handle read_request
parse_request_one_word k s w line no_nul one_word short =
    let whole : text_of s.beyond line ≡ line =
      rw (lt→ltb (length line) bufsize short) (cstr_self line no_nul) in
    rw (whole, lt→ltb (length line) bufsize short, version-one_word line one_word)
      (derefs (scan_request line).method refl)
