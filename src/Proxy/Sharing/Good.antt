-- ===== src/Proxy/Sharing/Good.antt =====
-- What holds while two processes of PA3/proxy.c work at one cache file, and that each call keeps it.
use network_systems.Prelude.{
  ℕ, ◌≤◌, ◌≡◌, refl, sym, ap, ◌∙◌, Bool, true, false, Option, some, List, [], ◌∷◌, ◌++◌, arith,
  length, length-append, take, drop, join, append_assoc, append-nil, take-append-drop, drop-append,
  ◌⊎◌, inl, inr,
}
use network_systems.CString.{Bytes}
use network_systems.Stream.{bufsize}
use network_systems.Proxy.Sharing.{
  Writer, waiting, opened, closed, writing, unlocked, Reader, coming, checked, ready, locked,
  sending, sent_all, Shared, shared, writer_locks, reader_locks, next_piece, Step, open_wb,
  lock_write, fwrite, flush, unlock_write, close_write, check, open_rb, lock_read, measure,
  send_piece, unlock_read,
}

abbrev pub IsPrefix : Bytes → Bytes → Type 0
IsPrefix a b = (rest : Bytes) × (a ++ rest ≡ b)

-- The writer has not yet its lock, or it has opened the file.
abbrev pub is_early : Writer → Bool
is_early waiting = true
is_early opened = true
is_early closed = false
is_early (writing rest pending) = false
is_early (unlocked pending) = false

abbrev pub has_opened : Writer → Bool
has_opened waiting = false
has_opened opened = true
has_opened closed = true
has_opened (writing rest pending) = true
has_opened (unlocked pending) = true

pub some-inj : {a b : Bytes} → some a ≡ some b → a ≡ b
some-inj e = cc e

IsPrefix-trans : (a b c : Bytes) → IsPrefix a b → IsPrefix b c → IsPrefix a c
IsPrefix-trans a b c (r, e) (t, k) = (r ++ t, sym (append_assoc a r t) ∙ ap (λ x. x ++ t) e ∙ k)

-- One more piece of what a prefix is of is a prefix of it.
pub IsPrefix-next_piece :
    (sent content : Bytes)
    → IsPrefix sent content
    → IsPrefix (sent ++ next_piece content sent) content
IsPrefix-next_piece sent content (rest, e) = (
  drop bufsize rest,
  rw (sym e) (
      rw (drop-append sent rest) (
        append_assoc sent (take bufsize rest) (drop bufsize rest)
        ∙ ap (λ x. sent ++ x) (take-append-drop bufsize rest))),
)

-- A prefix that is as long is the whole.
pub IsPrefix-eq : (a b : Bytes) → IsPrefix a b → length b ≤ length a → a ≡ b
IsPrefix-eq a b ([], e) h = sym (append-nil a) ∙ e
IsPrefix-eq a b (c ∷ rest, e) h = absurd (omega (arith, ap length e, length-append a (c ∷ rest)))

pub next_piece-nil : (sent : Bytes) → sent ++ next_piece [] sent ≡ sent
next_piece-nil [] = refl
next_piece-nil (c ∷ sent) = append-nil (c ∷ sent)

module _ (old : Option Bytes) (page : Bytes) where
  -- What is in the file, by where the writer is.
  abbrev pub Written : Option Bytes → Writer → Type 0
  Written file waiting = file ≡ old
  Written file opened = file ≡ some []
  Written file (writing rest pending) =
      (content : Bytes) × (file ≡ some content) × (content ++ (pending ++ join rest) ≡ page)
  Written file (unlocked pending) =
      (content : Bytes) × (file ≡ some content) × (content ++ pending ≡ page)
  Written file closed = file ≡ some page

  abbrev pub FromOld : Writer → ℕ → Bytes → Type 0
  FromOld w fsize sent =
      (page' : Bytes) × (old ≡ some page')
      × (fsize ≡ length page')
      × IsPrefix sent page'
      × (is_early w ≡ true)

  abbrev pub FromNew : Option Bytes → Writer → Bytes → Type 0
  FromNew file w sent =
      (content : Bytes) × (file ≡ some content)
      × IsPrefix sent content
      × IsPrefix content page
      × (has_opened w ≡ true)

  -- What the reader has sent. Its lock and the writer's are never held together.
  abbrev pub Read : Option Bytes → Writer → Reader → Type 0
  Read file w coming = Unit
  Read file w checked = Unit
  Read file w ready = Unit
  Read file w locked = writer_locks w ≡ false
  Read file w (sending fsize sent) =
      (writer_locks w ≡ false) × (FromOld w fsize sent ⊎ FromNew file w sent)
  Read file w (sent_all fsize sent) =
      ((old ≡ some sent) × (fsize ≡ length sent)) ⊎ (IsPrefix sent page × (fsize ≤ length sent))

  abbrev pub Good : Shared → Type 0
  Good (shared file w r) = Written file w × Read file w r

  -- A writer that has its lock may go on as it will, and any writer while the reader has none.
  Read-writing :
      (file file' : Option Bytes) (w w' : Writer) (r : Reader)
      → writer_locks w ≡ true
      → Read file w r
      → Read file' w' r
  Read-writing file file' w w' coming h g = tt
  Read-writing file file' w w' checked h g = tt
  Read-writing file file' w w' ready h g = tt
  Read-writing file file' w w' locked h g = cc (h, g)
  Read-writing file file' w w' (sending fsize sent) h g = cc (h, g.0)
  Read-writing file file' w w' (sent_all fsize sent) h g = g

  Read-unread :
      (file file' : Option Bytes) (w w' : Writer) (r : Reader)
      → reader_locks r ≡ false
      → Read file w r
      → Read file' w' r
  Read-unread file file' w w' coming h g = tt
  Read-unread file file' w w' checked h g = tt
  Read-unread file file' w w' ready h g = tt
  Read-unread file file' w w' locked h g = cc h
  Read-unread file file' w w' (sending fsize sent) h g = cc h
  Read-unread file file' w w' (sent_all fsize sent) h g = g

  Read-open : (file : Option Bytes) (r : Reader) → Read file waiting r → Read (some []) opened r
  Read-open file coming g = tt
  Read-open file checked g = tt
  Read-open file ready g = tt
  Read-open file locked g = refl
  Read-open file (sending fsize sent) (h, inl (page', e, l, p, early)) =
      (refl, inl (page', e, l, p, refl))
  Read-open file (sending fsize sent) (h, inr (content, e, p, q, late)) = cc late
  Read-open file (sent_all fsize sent) g = g

  Read-close :
      (content pending : Bytes) (r : Reader)
      → content ++ pending ≡ page
      → Read (some content) (unlocked pending) r
      → Read (some (content ++ pending)) closed r
  Read-close content pending coming all g = tt
  Read-close content pending checked all g = tt
  Read-close content pending ready all g = tt
  Read-close content pending locked all g = refl
  Read-close content pending (sending fsize sent) all (h, inl (page', e, l, p, early)) = cc early
  Read-close content pending (sending fsize sent) all (h, inr (content', e, p, q, late)) =
      let same : content' ≡ content = sym (some-inj e) in
      (
        refl,
        inr (
          content ++ pending,
          refl,
          IsPrefix-trans sent content (content ++ pending) (rw same at p) (pending, refl),
          ([], append-nil (content ++ pending) ∙ all),
          refl,
        ),
      )
  Read-close content pending (sent_all fsize sent) all g = g

  Read-measure :
      (content : Bytes) (w : Writer)
      → Written (some content) w
      → writer_locks w ≡ false
      → Read (some content) w (sending (length content) [])
  Read-measure content waiting e h = (refl, inl (content, sym e, refl, (content, refl), refl))
  Read-measure content opened e h =
      let nil : content ≡ [] = some-inj e in (refl, inr ([], e, ([], refl), (page, refl), refl))
  Read-measure content closed e h =
      (refl, inr (content, refl, (content, refl), ([], append-nil content ∙ some-inj e), refl))
  Read-measure content (writing rest pending) e h = cc h
  Read-measure content (unlocked pending) (content', e, all) h =
      let same : content' ≡ content = sym (some-inj e) in
      (refl, inr (content, refl, (content, refl), (pending, rw same at all), refl))

  Read-send :
      (content sent : Bytes) (w : Writer) (fsize : ℕ)
      → Written (some content) w
      → Read (some content) w (sending fsize sent)
      → Read (some content) w (sending fsize (sent ++ next_piece content sent))
  Read-send content sent waiting fsize e (h, inl (page', o, l, p, early)) =
      let same : content ≡ page' = some-inj (e ∙ o) in
      (h, inl (page', o, l, rw same (IsPrefix-next_piece sent page' p), early))
  Read-send content sent opened fsize e (h, inl (page', o, l, p, early)) =
      let nil : content ≡ [] = some-inj e in
      (h, inl (page', o, l, rw (nil, next_piece-nil sent) p, early))
  Read-send content sent closed fsize e (h, inl (page', o, l, p, early)) = cc early
  Read-send content sent (writing rest pending) fsize e (h, g) = cc h
  Read-send content sent (unlocked pending) fsize e (h, inl (page', o, l, p, early)) = cc early
  Read-send content sent w fsize e (h, inr (content', k, p, q, late)) =
      let same : content' ≡ content = sym (some-inj k) in
      (h, inr (content, refl, IsPrefix-next_piece sent content (rw same at p), rw same at q, late))

  Read-unlock :
      (file : Option Bytes) (w : Writer) (fsize : ℕ) (sent : Bytes)
      → fsize ≤ length sent
      → Read file w (sending fsize sent)
      → Read file w (sent_all fsize sent)
  Read-unlock file w fsize sent long (h, inl (page', o, l, p, early)) =
      let same : sent ≡ page' = IsPrefix-eq sent page' p (omega arith) in inl (rw same o, rw same l)
  Read-unlock file w fsize sent long (h, inr (content, k, p, q, late)) =
      inr (IsPrefix-trans sent content page p q, long)

  pub Step-Good :
      (pieces : List Bytes) {s t : Shared} → join pieces ≡ page → Step pieces s t → Good s → Good t
  Step-Good pieces whole (open_wb {file} {r}) (e, g) = (refl, Read-open file r g)
  Step-Good pieces whole (lock_write {file} {r} h) (e, g) =
      (([], e, whole), Read-unread file file opened (writing pieces []) r h g)
  Step-Good pieces whole (fwrite {file} {r} {piece} {pending} {rest}) ((content, e, all), g) = (
    (content, e, ap (λ x. content ++ x) (append_assoc pending piece (join rest)) ∙ all),
    Read-writing file file (writing (piece ∷ rest) pending) (writing rest (pending ++ piece)) r refl
        g,
  )
  Step-Good pieces whole (flush {content} {pending} {rest} {r} n) ((content', e, all), g) =
      let same : content' ≡ content = sym (some-inj e) in
      (
        (
          content ++ take n pending,
          refl,
          append_assoc content (take n pending) (drop n pending ++ join rest)
              ∙ ap (λ x. content ++ x)
                  (sym (append_assoc (take n pending) (drop n pending) (join rest))
                    ∙ ap (λ x. x ++ join rest) (take-append-drop n pending))
              ∙ rw same at all,
        ),
        Read-writing (some content) (some (content ++ take n pending)) (writing rest pending)
            (writing rest (drop n pending)) r refl g,
      )
  Step-Good pieces whole (unlock_write {file} {r} {pending}) ((content, e, all), g) = (
    (content, e, ap (λ x. content ++ x) (sym (append-nil pending)) ∙ all),
    Read-writing file file (writing [] pending) (unlocked pending) r refl g,
  )
  Step-Good pieces whole (close_write {content} {pending} {r}) ((content', e, all), g) =
      let same : content' ≡ content = sym (some-inj e) in
      let whole' : content ++ pending ≡ page = rw same at all in
      (ap some whole', Read-close content pending r whole' g)
  Step-Good pieces whole check (e, g) = (e, tt)
  Step-Good pieces whole open_rb (e, g) = (e, tt)
  Step-Good pieces whole (lock_read h) (e, g) = (e, h)
  Step-Good pieces whole (measure {content} {w}) (e, g) = (e, Read-measure content w e g)
  Step-Good pieces whole (send_piece {content} {sent} {w} {fsize} h) (e, g) =
      (e, Read-send content sent w fsize e g)
  Step-Good pieces whole (unlock_read {file} {sent} {w} {fsize} h) (e, g) =
      (e, Read-unlock file w fsize sent h g)
