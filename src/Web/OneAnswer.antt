-- ===== src/Web/OneAnswer.antt =====
-- The requests that a process of PA2/server.c takes, beside the responses it sends.
use network_systems.Prelude.{
  ◌≡◌, refl, Bool, true, false, ◌||◌, not, Option, none, some, [], ◌∷◌, ◌++◌, if◌then◌else◌, length,
  ◌==◌,
}
use network_systems.CString.{Bytes, codes, streq, contains, strchr}
use network_systems.Stream.{bufsize}
use network_systems.Machine.{Result, ok, err, overflow, ◌>>=◌, deref, fits}
use network_systems.Machine.Results.{Every, every_ok, Every-bind, Every-if, Every-then}
use network_systems.Web.Request.{HttpRequest, Garbage, read_request}
use network_systems.Web.Content.{content_type}
use network_systems.Web.Reply.{
  Connection, send, close, padded, error_text, refuse, not_found, bad_request, method_not_allowed,
  forbidden, http_version_not_supported,
}
use network_systems.Web.Service.{
  Disk, Handled, returned, exited, temp_size, relative_path, response_header, type_or, respond,
  service_request, default_connection, dispatch, bad, handle, received_text, parse_request,
}

abbrev pub connection_of : Handled → Connection
connection_of (returned c) = c
connection_of (exited c) = c

-- One message more has been sent.
abbrev pub Answered : Connection → Connection → Type 0
Answered c c' = (message : Bytes) × (c'.sent ≡ c.sent ++ message ∷ [])

abbrev pub AnsweredBy : Connection → Handled → Type 0
AnsweredBy c h = Answered c (connection_of h)

refuse-Answered :
    (version status connection : Bytes) (c : Connection)
    → Every (Answered c) (refuse version status connection c)
unfolding refuse
refuse-Answered version status connection c =
    Every-bind {m = fits bufsize (error_text version status connection)}
      (λ text _. every_ok _ (padded text, sent_if (streq connection (codes "close")) text))
  where
    sent_if :
        (b : Bool) (text : Bytes)
        → (if b then close (send (padded text) c) else send (padded text) c).sent
          ≡ c.sent ++ padded text ∷ []
    sent_if true text = refl
    sent_if false text = refl

not_found-Answered : (r : HttpRequest) (c : Connection) → Every (Answered c) (not_found r c)
unfolding not_found
not_found-Answered r c = Every-bind {m = deref r.version} (λ version _.
    Every-bind {m = deref r.connection} (λ connection _. refuse-Answered version _ connection c))

bad_request-Answered : (r : HttpRequest) (c : Connection) → Every (Answered c) (bad_request r c)
unfolding bad_request
bad_request-Answered r c =
    Every-bind {m = deref r.connection} (λ connection _. refuse-Answered _ _ connection c)

method_not_allowed-Answered :
    (r : HttpRequest) (c : Connection) → Every (Answered c) (method_not_allowed r c)
unfolding method_not_allowed
method_not_allowed-Answered r c = Every-bind {m = deref r.version} (λ version _.
    Every-bind {m = deref r.connection} (λ connection _. refuse-Answered version _ connection c))

forbidden-Answered : (r : HttpRequest) (c : Connection) → Every (Answered c) (forbidden r c)
unfolding forbidden
forbidden-Answered r c = Every-bind {m = deref r.version} (λ version _.
    Every-bind {m = deref r.connection} (λ connection _. refuse-Answered version _ connection c))

http_version_not_supported-Answered :
    (r : HttpRequest) (c : Connection) → Every (Answered c) (http_version_not_supported r c)
unfolding http_version_not_supported
http_version_not_supported-Answered r c =
    Every-bind {m = deref r.connection} (λ connection _. refuse-Answered _ _ connection c)

-- The handler returns behind the response.
returned-AnsweredBy :
    (c : Connection) {m : Result Connection}
    → Every (Answered c) m
    → Every (AnsweredBy c) (m >>= λ c'. ok (returned c'))
returned-AnsweredBy c e = Every-then e (λ c' h. every_ok (returned c') h)

respond-AnsweredBy :
    (g : Garbage) (running : Bool) (version connection extension payload : Bytes) (c : Connection)
    → Every (AnsweredBy c) (respond g running version connection extension payload c)
unfolding respond
respond-AnsweredBy g running version connection extension payload c =
    Every-bind {m = fits bufsize header} (λ header' _.
      Every-bind {m = if length payload == 0 then err overflow else ok (header' ++ payload)}
        (λ response _.
          every_ok _ (
            response,
            sent_if (streq last (codes "close") || streq last (codes "Close")) response,
          )))
  where
    last : Bytes
    last = if running then connection else codes "close"

    header : Bytes
    header =
        response_header version (type_or g.content_type (content_type extension)) (length payload)
          last

    sent_if :
        (b : Bool) (response : Bytes)
        → (connection_of
            (if b then exited (close (send response c)) else returned (send response c))).sent
          ≡ c.sent ++ response ∷ []
    sent_if true response = refl
    sent_if false response = refl

service_request-AnsweredBy :
    (disk : Disk) (g : Garbage) (running : Bool) (r : HttpRequest) (c : Connection)
    → Every (AnsweredBy c) (service_request disk g running r c)
unfolding service_request
service_request-AnsweredBy disk g running r c =
    Every-bind {m = deref r.version >>= fits temp_size} (λ version _.
      Every-bind {m = deref r.connection >>= fits temp_size} (λ connection _.
        Every-bind {m = deref r.uri} (λ uri _.
          Every-bind {m = relative_path disk uri}
            (λ path _. opened version connection path (disk.file path)))))
  where
    extended :
        (version connection payload : Bytes) (extension : Option Bytes)
        → Every (AnsweredBy c) (elim extension [
          | none ↦ not_found r c >>= λ c'. ok (returned c')
          | some e ↦ respond g running version connection e payload c
        ])
    extended version connection payload none = returned-AnsweredBy c (not_found-Answered r c)
    extended version connection payload (some e) =
        respond-AnsweredBy g running version connection e payload c

    opened :
        (version connection path : Bytes) (file : Option Bytes)
        → Every (AnsweredBy c) (elim file [
          | none ↦ not_found r c >>= λ c'. ok (returned c')
          | some payload ↦ elim (strchr path b'.') [
            | none ↦ not_found r c >>= λ c'. ok (returned c')
            | some extension ↦ respond g running version connection extension payload c
          ]
        ])
    opened version connection path none = returned-AnsweredBy c (not_found-Answered r c)
    opened version connection path (some payload) =
        extended version connection payload (strchr path b'.')

dispatch-AnsweredBy :
    (disk : Disk) (g : Garbage) (running : Bool) (method uri version : Bytes) (r : HttpRequest)
    (c : Connection)
    → Every (AnsweredBy c) (dispatch disk g running method uri version r c)
unfolding dispatch
dispatch-AnsweredBy disk g running method uri version r c =
    let keep : HttpRequest = record r { connection = some (codes "keep-alive") } in
    Every-if (contains uri (codes "..")) (returned-AnsweredBy c (forbidden-Answered keep c)) (
      Every-if (not (streq method (codes "GET")))
        (returned-AnsweredBy c (method_not_allowed-Answered r c))
        (Every-if (streq version (codes "HTTP/1.1") || streq version (codes "HTTP/1.0"))
          (service_request-AnsweredBy disk g running r c)
          (returned-AnsweredBy c (http_version_not_supported-Answered keep c))))

handle-AnsweredBy :
    (disk : Disk) (g : Garbage) (running : Bool) (method uri version : Option Bytes)
    (c : Connection)
    → (r : HttpRequest) → r.method ≡ method
    → r.uri ≡ uri
    → r.version ≡ version
    → Every (AnsweredBy c) (handle disk g running r c)
unfolding handle
handle-AnsweredBy disk g running none uri version c r m u v =
    rw (m, handle) (returned-AnsweredBy c (bad_request-Answered (bad r) c))
handle-AnsweredBy disk g running (some method) none version c r m u v =
    rw (m, u, handle) (returned-AnsweredBy c (bad_request-Answered (bad r) c))
handle-AnsweredBy disk g running (some method) (some uri) none c r m u v =
    rw (m, u, v, handle) (returned-AnsweredBy c (bad_request-Answered (bad r) c))
handle-AnsweredBy disk g running (some method) (some uri) (some version) c r m u v =
    rw (m, u, v, handle)
      (dispatch-AnsweredBy disk g running method uri version
        (record r { connection = default_connection version r.connection }) c)

-- Whatever is received, whatever the files and the memory hold: unless a fault ends the process, a
-- request is answered with one response, no less and no more, and what was sent before stays.
pub parse_request-AnsweredBy :
    (disk : Disk) (g : Garbage) (running : Bool) (buf : Bytes) (c : Connection)
    → Every (AnsweredBy c) (parse_request disk g running buf c)
unfolding parse_request
parse_request-AnsweredBy disk g running buf c =
    Every-bind {m = read_request g (received_text g buf)}
      (λ r _. handle-AnsweredBy disk g running r.method r.uri r.version c r refl refl refl)
