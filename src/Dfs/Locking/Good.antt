-- ===== src/Dfs/Locking/Good.antt =====
-- What holds while the threads of PA4/server/dfs.c work at one directory, and that each call of a
-- thread keeps it.
use network_systems.Prelude.{
  ◌≡◌, refl, sym, ap, ◌∙◌, true, false, some, List, [], ◌∷◌, ◌++◌, arith, length, join, take, drop,
  append_assoc, append-nil, take-append-drop, take_all,
}
use network_systems.CString.{Bytes}
use network_systems.Dfs.Files.{Files, Shell, lookup, store}
use network_systems.Dfs.Files.Laws.{lookup-store_self}
use network_systems.Dfs.Locking.{
  looping, recv_none, recv_again, flush_looping, Put, Asked, Thread, idle, put_waiting, put_locked,
  writing, put_closed, asked, get_waiting, get_locked, sized, fetched, sending, has_lock,
  after_lock, after_unlock, Call, request_put, fopen_wb, fwrite, flush, fclose_put, request_get,
  popen_none, popen_some, measure, fread, send_bytes,
}
use network_systems.Dfs.Locking.Entries.{Has, Grows, Grows-store, newest_entry-Has}
use network_systems.Dfs.Locking.Serial.{
  Serial, then_put, Extends, no_more, one_more, Extends-trans, store-store,
}

pub some-inj {ℓ} : {A : Type ℓ} {p q : A} → some p ≡ some q → p ≡ q
some-inj e = cc e

module _ (sh : Shell) (puts : List Put) (initial : Files) where
  -- What a thread that has the lock has yet to write makes its chunk whole; all else of the
  -- directory is as whole puts have left it. What a thread sends is what whole puts have left.
  abbrev pub Fine : List Put → Files → Thread → Type 0
  Fine log files idle = Unit
  Fine log files (put_waiting name payload rest) = Asked name (payload ∷ rest) puts
  Fine log files (put_locked name payload rest) =
      Serial puts initial log files × Asked name (payload ∷ rest) puts
  Fine log files (writing name rest pending) =
      (before : Files) × (pieces : List Bytes) × (content : Bytes) × Serial puts initial log before
      × Asked name pieces puts
      × (files ≡ store name content before)
      × (content ++ (pending ++ join rest) ≡ join pieces)
  Fine log files (looping name pending) =
      (before : Files) × (content : Bytes) × Serial puts initial log before
      × (files ≡ store name content before)
  Fine log files put_closed = Serial puts initial log files
  Fine log files (asked filename chunk) = Unit
  Fine log files (get_waiting name) = Has name files
  Fine log files (get_locked name) = Serial puts initial log files × Has name files
  Fine log files (sized name fsize) =
      Serial puts initial log files
      × ((content : Bytes) × (lookup name files ≡ some content) × (fsize ≡ length content))
  Fine log files (fetched name fsize chunk) =
      Serial puts initial log files × (lookup name files ≡ some chunk) × (fsize ≡ length chunk)
  Fine log files (sending name fsize chunk) =
      (earlier : List Put) × (then : Files) × Extends earlier log
      × Serial puts initial earlier then
      × (lookup name then ≡ some chunk)
      × (fsize ≡ length chunk)

  -- What a thread outside the lock may rely on stays while entries only come.
  pub Fine-Grows :
      (log log' : List Put) (files files' : Files) (p : Thread)
      → has_lock p ≡ false
      → Grows files files'
      → Extends log log'
      → Fine log files p
      → Fine log' files' p
  Fine-Grows log log' files files' idle h g x f = tt
  Fine-Grows log log' files files' (put_waiting name payload rest) h g x f = f
  Fine-Grows log log' files files' (asked filename chunk) h g x f = tt
  Fine-Grows log log' files files' (get_waiting name) h g x f = g name f
  Fine-Grows log log' files files' (sending name fsize chunk) h g x
        (earlier, then, y, s, look, size) =
      (earlier, then, Extends-trans y x, s, look, size)
  Fine-Grows log log' files files' (put_locked name payload rest) h g x f = cc h
  Fine-Grows log log' files files' (writing name rest pending) h g x f = cc h
  Fine-Grows log log' files files' (looping name pending) h g x f = cc h
  Fine-Grows log log' files files' put_closed h g x f = cc h
  Fine-Grows log log' files files' (get_locked name) h g x f = cc h
  Fine-Grows log log' files files' (sized name fsize) h g x f = cc h
  Fine-Grows log log' files files' (fetched name fsize chunk) h g x f = cc h

  pub Fine-after_lock :
      (log : List Put) (files : Files) (p p' : Thread)
      → after_lock p ≡ some p'
      → Serial puts initial log files
      → Fine log files p
      → Fine log files p' × (has_lock p ≡ false) × (has_lock p' ≡ true)
  Fine-after_lock log files (put_waiting name payload rest) p' e s f =
      rw (sym (some-inj e)) ((s, f), refl, refl)
  Fine-after_lock log files (get_waiting name) p' e s f = rw (sym (some-inj e)) ((s, f), refl, refl)
  Fine-after_lock log files p p' e s f = cc e

  pub Fine-after_unlock :
      (log : List Put) (files : Files) (p p' : Thread)
      → after_unlock p ≡ some p'
      → Fine log files p
      → Serial puts initial log files
        × Fine log files p'
        × (has_lock p ≡ true)
        × (has_lock p' ≡ false)
  Fine-after_unlock log files put_closed p' e f = rw (sym (some-inj e)) (f, tt, refl, refl)
  Fine-after_unlock log files (fetched name fsize chunk) p' e f =
      rw (sym (some-inj e)) (f.0, (log, files, no_more, f.0, f.1, f.2), refl, refl)
  Fine-after_unlock log files p p' e f = cc e

  -- A call neither takes the lock nor gives it back.
  pub has_lock-Call :
      {files files' : Files} {p p' : Thread}
      → Call sh puts files p files' p'
      → has_lock p ≡ has_lock p'
  has_lock-Call (request_put m) = refl
  has_lock-Call c = refl

  -- Only a thread that has the lock writes.
  pub Call-unheld :
      {files files' : Files} {p p' : Thread}
      → Call sh puts files p files' p'
      → has_lock p ≡ false
      → files' ≡ files
  Call-unheld fopen_wb h = cc h
  Call-unheld (flush n e) h = cc h
  Call-unheld (flush_looping n e) h = cc h
  Call-unheld (fclose_put e) h = cc h
  Call-unheld c h = refl

  pub Call-Grows :
      {files files' : Files} {p p' : Thread} → Call sh puts files p files' p' → Grows files files'
  Call-Grows (fopen_wb {files} {name}) = Grows-store name [] files
  Call-Grows (flush {files} {name} {content} {pending} n e) =
      Grows-store name (content ++ take n pending) files
  Call-Grows (flush_looping {files} {name} {content} {pending} n e) =
      Grows-store name (content ++ take n pending) files
  Call-Grows (fclose_put {files} {name} {content} {pending} e) =
      Grows-store name (content ++ pending) files
  Call-Grows c = λ name h. h

  -- What a write of a thread does to the file of its put.
  written :
      (files before : Files) (name content content' more : Bytes)
      → files ≡ store name content before
      → lookup name files ≡ some content'
      → (content' ≡ content)
        × (store name (content' ++ more) files ≡ store name (content ++ more) before)
  written files before name content content' more e look =
      let same : content' ≡ content =
        some-inj (sym look ∙ ap (lookup name) e ∙ lookup-store_self name content before) in
      (
        same,
        ap (λ c. store name (c ++ more) files) same
            ∙ ap (store name (content ++ more)) e
            ∙ store-store name content (content ++ more) before,
      )

  -- What a call leaves: the log goes on, and does not for a thread outside the lock.
  pub record Moved (log : List Put) (p : Thread) (files' : Files) (p' : Thread) : Type 0 where
    pub log' : List Put
    pub extends : Extends log log'
    pub free : has_lock p ≡ false → log' ≡ log
    pub fine : Fine log' files' p'

  stays :
      {log : List Put} {files' : Files} {p p' : Thread} → Fine log files' p' → Moved log p files' p'
  stays {log} f = record { log' = log; extends = no_more; free = λ h. refl; fine = f }

  -- Each call leaves its thread as it should be.
  pub Fine-Call :
      {log : List Put} {files files' : Files} {p p' : Thread}
      → Call sh puts files p files' p'
      → Fine log files p
      → Moved log p files' p'
  Fine-Call (request_put m) f = stays m
  Fine-Call (fopen_wb {files} {name} {payload} {rest}) f =
      stays (files, payload ∷ rest, [], f.0, f.1, refl, refl)
  Fine-Call recv_none (before, pieces, content, s, m, e, all) = stays (before, content, s, e)
  Fine-Call recv_again f = stays f
  Fine-Call (flush_looping {files} {name} {content} {pending} n look) (before, c, s, e) =
      let (equal, k) = written files before name c content (take n pending) e look in
      stays (before, c ++ take n pending, s, k)
  Fine-Call (fwrite {files} {name} {piece} {pending} {rest})
        (before, pieces, content, s, m, e, all) =
      stays (
        before,
        pieces,
        content,
        s,
        m,
        e,
        ap (λ x. content ++ x) (append_assoc pending piece (join rest)) ∙ all,
      )
  Fine-Call (flush {files} {name} {content} {pending} {rest} n look)
        (before, pieces, c, s, m, e, all) =
      let (same, k) = written files before name c content (take n pending) e look in
      stays (
        before,
        pieces,
        c ++ take n pending,
        s,
        m,
        k,
        append_assoc c (take n pending) (drop n pending ++ join rest)
            ∙ ap (λ x. c ++ x)
                (sym (append_assoc (take n pending) (drop n pending) (join rest))
                  ∙ ap (λ x. x ++ join rest) (take-append-drop n pending))
            ∙ all,
      )
  Fine-Call {log} (fclose_put {files} {name} {content} {pending} look)
        (before, pieces, c, s, m, e, all) =
      let (same, k) = written files before name c content pending e look in
      let whole : c ++ pending ≡ join pieces = ap (λ x. c ++ x) (sym (append-nil pending)) ∙ all in
      record {
        log' = (name, pieces) ∷ log;
        extends = one_more no_more;
        free = λ h. cc h;
        fine = rw (k, whole) (then_put s m);
      }
  Fine-Call (request_get filename chunk) f = stays tt
  Fine-Call (popen_none h) f = stays tt
  Fine-Call (popen_some {files} {filename} {chunk} h) f =
      stays (newest_entry-Has sh filename chunk files h)
  Fine-Call (measure {files} {name} {content} look) f = stays (f.0, (content, look, refl))
  Fine-Call (fread {files} {name} {content} {fsize} look) (s, (c, k, size)) =
      let same : content ≡ c = some-inj (sym look ∙ k) in
      let whole : take fsize content ≡ content =
        take_all fsize content (omega (arith, ap length same)) in
      stays (s, look ∙ ap some (sym whole), size ∙ ap length (sym same ∙ sym whole))
  Fine-Call send_bytes f = stays tt
