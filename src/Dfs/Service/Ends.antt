-- ===== src/Dfs/Service/Ends.antt =====
-- About the end of the loop of `service_request` of PA4/server/dfs.c.
use network_systems.Machine.Results.{Every, every_ok, every_err, Every-bind, Every-if, Every-ok}
use network_systems.Stream.Left.{Left, recv-Left, rest_of, read_rest-Left}
use network_systems.Prelude.{
  ℕ, zero, suc, ◌-◌, ◌<◌, ◌≡◌, ◌≢◌, refl, Option, none, some, arith, length, join, if◌then◌else◌,
  ltb, Bool-cases, inl, inr, ◌==◌, drop,
}
use network_systems.CString.{pos_part, streq, codes, contains, Bytes, ℤ}
use network_systems.Stream.{Segments, bufsize, recv, read_rest}
use network_systems.Stream.Laws.{AllFull, recv-Received, Received-length}
use network_systems.Dfs.Files.{Shell, newest, names, lookup}
use network_systems.Dfs.Request.{
  put_fields, header_length, deref, fits, overflow, Result, ok, err, ◌>>=◌, Memory, Header,
  buf_text, temp_text, is_done, read_header,
}
use network_systems.Dfs.Service.{
  put_request, get_request, listing, readdir, or_hang, Server, Round, again, closed, round, perform,
  put, get, ls, send_file, file_chunk, entry_name, path_of, find_command, receive_rest,
  service_request,
}

-- What is left of a stream when a round ends; nothing is asked of a thread that has ended.
abbrev RoundLeft : Segments → Round → Type 0
RoundLeft a (again s) = Left a s.inbound
RoundLeft a (closed s) = Unit

again_ne_closed : {s t : Server} → ok (closed s) ≢ ok (again t)
again_ne_closed e = cc e

Every-again :
    (a : Segments) (r : Result Server)
    → Every (λ (t : Server). Left a t.inbound) r
    → Every (RoundLeft a) (r >>= λ t. ok (again t))
Every-again a (ok s) (every_ok _ h) = every_ok (again s) h
Every-again a (err e) h = every_err e

receive_rest-Left :
    (left : ℕ) (segs : Segments) (more : Bytes) (rest : Segments)
    → receive_rest left segs ≡ ok (more, rest)
    → Left segs rest
receive_rest-Left left segs more rest e =
    some_rest (read_rest (suc left) left 0 segs) (read_rest-Left (suc left) left 0 segs) e
  where
    some_rest :
        (r : Option (Bytes × Segments))
        → Left segs (rest_of r)
        → or_hang r ≡ ok (more, rest)
        → Left segs rest
    some_rest none h e = grind arith
    some_rest (some (b, t)) h e = grind arith

put-Left :
    (buf : Bytes) (header : ℕ) (filename chunk : Bytes) (size : ℤ) (time : Bytes) (s : Server)
    → Every (λ (t : Server). Left s.inbound t.inbound) (put buf header filename chunk size time s)
unfolding put
put-Left buf header filename chunk size time s =
    Every-bind {m = fits bufsize (path_of s.dir (entry_name filename chunk time))} (λ path e₁.
      Every-bind {m = if ltb (length buf) header then err overflow else ok (drop header buf)}
        (λ payload e₂.
          let left = pos_part size - length payload in
          Every-bind {m = receive_rest left s.inbound}
            (λ (more, rest) e₃. every_ok _ (receive_rest-Left left s.inbound more rest e₃))))

get-Left :
    (sh : Shell) (m : Memory) (filename chunk : Bytes) (s : Server)
    → Every (λ (t : Server). Left s.inbound t.inbound) (get sh m filename chunk s)
unfolding get send_file
get-Left sh m filename chunk s =
    Every-bind {m = fits bufsize (find_command s.dir (file_chunk filename chunk))} (λ command e₁.
      Every-if
        (contains (newest sh (file_chunk filename chunk) (names s.files))
          (file_chunk filename chunk))
        (Every-bind
          {m = deref (lookup (newest sh (file_chunk filename chunk) (names s.files)) s.files)}
          (λ content e₂. every_ok _ (recv-Left bufsize s.inbound (omega arith))))
        (every_ok _ (λ full. (full, omega arith))))

put_request-Left :
    (buf line : Bytes) (h : Header) (s : Server)
    → Every (RoundLeft s.inbound) (put_request buf line h s)
unfolding put_request
put_request-Left buf line h s = Every-bind {m = put_fields line} (λ (size, time) e₁.
    Every-bind {m = header_length line} (λ header e₂.
      Every-bind {m = deref h.filename} (λ filename e₃. Every-bind {m = deref h.chunk} (λ chunk e₄.
        Every-again s.inbound (put buf header filename chunk size time s)
          (put-Left buf header filename chunk size time s)))))

get_request-Left :
    (sh : Shell) (m : Memory) (h : Header) (s : Server)
    → Every (RoundLeft s.inbound) (get_request sh m h s)
unfolding get_request
get_request-Left sh m h s = Every-bind {m = deref h.filename} (λ filename e₁.
    Every-bind {m = deref h.chunk} (λ chunk e₂.
      Every-again s.inbound (get sh m filename chunk s) (get-Left sh m filename chunk s)))

perform-Left :
    (sh : Shell) (m : Memory) (buf line : Bytes) (h : Header) (s : Server)
    → Every (RoundLeft s.inbound) (perform sh m buf line h s)
unfolding perform ls
perform-Left sh m buf line h s = Every-bind {m = deref h.command} (λ command e₁.
    Every-if (streq command (codes "put")) (put_request-Left buf line h s) (
      Every-if (streq command (codes "PUT"))
        (Every-bind {m = put_fields line} (λ fields e₂. every_ok _ (λ full. (full, omega arith))))
        (Every-if (streq command (codes "get")) (get_request-Left sh m h s) (
          Every-if (streq command (codes "ls"))
            (Every-if s.readable
              (Every-bind {m = fits bufsize (listing (readdir s.files))}
                (λ text e₂. every_ok _ (λ full. (full, omega arith))))
              (every_ok _ tt))
            (every_ok _ (λ full. (full, omega arith)))))))

-- A round after which the loop goes on has taken something from the stream.
round-Left :
    (sh : Shell) (m : Memory) (s s' : Server)
    → AllFull s.inbound
    → round sh m s ≡ ok (again s')
    → AllFull s'.inbound × (length (join s'.inbound) < length (join s.inbound))
unfolding round
round-Left sh m s s' full e =
    let (buf, inbound) = recv bufsize s.inbound in
    let r = recv-Received bufsize s.inbound (omega arith) full in
    let line = buf_text m buf in
    elim (Bool-cases (length buf == 0)) [
      | inl none_left ↦ absurd (again_ne_closed (rw none_left at e))
      | inr some_left ↦ elim (Bool-cases (is_done line)) [
        | inl done ↦ absurd (again_ne_closed (rw (some_left, done) at e))
        | inr request ↦
            let performed : perform sh m buf line (read_header line (temp_text m buf))
                  (record s { inbound = inbound })
                ≡ ok (again s') =
              rw (some_left, request) at e in
            let (full', less) =
              Every-ok
                (perform-Left sh m buf line (read_header line (temp_text m buf))
                  (record s { inbound = inbound }))
                performed r.full in
            let read : length buf ≢ 0 = ground arith in (full', omega (arith, Received-length r))
      ]
    ]

abbrev Ends : Option (Result Server) → Type 0
Ends t = (r : Result Server) × (t ≡ some r)

-- The loop ends if it does after each round that it goes on from.
Ends-step :
    (fuel : ℕ) (sh : Shell) (memory : ℕ → Memory) (s : Server) (r : Result Round)
    → round sh (memory fuel) s ≡ r
    → ((s' : Server) → r ≡ ok (again s') → Ends (service_request fuel sh memory s'))
    → Ends (service_request (suc fuel) sh memory s)
unfolding service_request
Ends-step fuel sh memory s (ok (again s')) e later =
    let (t, ends) = later s' refl in (t, rw (e, service_request) ends)
Ends-step fuel sh memory s (ok (closed s')) e later = (ok s', rw (e, service_request))
Ends-step fuel sh memory s (err fault) e later = (err fault, rw (e, service_request))

-- The thread comes to an end, by the end of the stream, by a marker or by a fault, of which a
-- reading loop without end is one: one unit of fuel
-- more than the stream has bytes is enough, whatever the requests say and the memory holds.
pub service_request_ends :
    (fuel : ℕ) (sh : Shell) (memory : ℕ → Memory) (s : Server)
    → AllFull s.inbound
    → length (join s.inbound) < fuel
    → (r : Result Server) × (service_request fuel sh memory s ≡ some r)
service_request_ends zero sh memory s full h = absurd (omega arith)
service_request_ends (suc fuel) sh memory s full h =
    Ends-step fuel sh memory s (round sh (memory fuel) s) refl (λ s' e.
      let (full', less) = round-Left sh (memory fuel) s s' full e in
      service_request_ends fuel sh memory s' full' (omega arith))
