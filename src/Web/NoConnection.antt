-- ===== src/Web/NoConnection.antt =====
-- Requests with two headers, neither of them Connection.
use network_systems.Prelude.{◌≡◌, ◌≢◌, refl, true, [], ◌++◌, some, none, append_assoc, ap, sym, ◌∙◌}
use network_systems.CString.{Bytes, codes, strstr, strtok_token, avoids, after, after-avoids}
use network_systems.Web.Request.{scan_request}

-- Two headers, Host and another, as they stand in the buffer that is parsed.
abbrev pub two_headers : Bytes → Bytes → Bytes → Bytes → Bytes
two_headers uri host name value =
    codes "GET "
    ++ (uri
        ++ (codes " HTTP/1.1\r\nHost: "
            ++ (host ++ (codes "\r\n" ++ (name ++ (codes ": " ++ (value ++ codes "\r\n\r")))))))

-- A word that stands alone in its line.
pub record IsWord (delims word : Bytes) : Type 0 where
  pub ne_nil : word ≢ []
  pub avoid : avoids delims word ≡ true

-- In a request with two headers, Host first and then another that is not Connection, the value of
-- the second is taken for the connection: the search gives a null pointer, and strtok goes on where
-- the one before stopped. "Connection: " stands nowhere in the request, and "Host: " not in
-- `host_buf`.
pub scan_request-two_headers :
    (host_buf uri host name value : Bytes)
    → IsWord (codes " ") uri
    → IsWord (codes "\r\n") host
    → avoids (codes " ") (name ++ codes ":") ≡ true
    → IsWord (codes "\r\n") value
    → strstr host_buf (codes "Host: ") ≡ none
    → strstr (two_headers uri host name value) (codes "Connection: ") ≡ none
    → scan_request host_buf (two_headers uri host name value) ≡ record {
      method = some (codes "GET");
      uri = some uri;
      version = some (codes "HTTP/1.1");
      connection = some value;
      host = some host;
    }
unfolding scan_request
scan_request-two_headers host_buf uri host name value u h n v no_host no_connection = rw (
  no_connection,
  no_host,
  strtok_token (codes " ") uri b' '
      (codes "HTTP/1.1\r\nHost: "
        ++ (host ++ (codes "\r\n" ++ (name ++ (codes ": " ++ (value ++ codes "\r\n\r"))))))
      u.ne_nil u.avoid refl,
  strtok_token (codes "\r\n") host b'\r'
      (codes "\n" ++ (name ++ (codes ": " ++ (value ++ codes "\r\n\r")))) h.ne_nil h.avoid refl,
  key,
  strtok_token (codes "\r\n") value b'\r' (codes "\n\r") v.ne_nil v.avoid refl,
)
  where
    key :
        after (codes " ") (name ++ (codes ": " ++ (value ++ codes "\r\n\r")))
        ≡ value ++ codes "\r\n\r"
    key =
        ap (after (codes " "))
          (sym (append_assoc name (codes ":") (codes " " ++ (value ++ codes "\r\n\r"))))
        ∙ after-avoids (codes " ") (name ++ codes ":") b' ' (value ++ codes "\r\n\r") n refl
