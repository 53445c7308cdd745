-- ===== src/Proxy/Blocklist/Lines.antt =====
-- Which hosts the file ./blocklist names to PA3/proxy.c.
use network_systems.Prelude.{
  take_but_last, ℕ, ◌-◌, ◌<◌, ◌≡◌, ◌≢◌, refl, Bool, true, false, ◌||◌, some, List, [], ◌∷◌, ◌++◌,
  arith, length, take, ◌==◌, if◌then◌else◌, ◌∙◌, ap, map,
}
use network_systems.CString.{Bytes, streq, elem, cstr_self, elem-append}
use network_systems.Machine.{ok}
use network_systems.Proxy.World.{fgets_lines, is_listed, is_blocked}

-- A name that fits a line of the array.
pub record IsLine (name : Bytes) : Type 0 where
  pub ne_nil : name ≢ []
  pub no_nul : elem 0 name ≡ false
  pub no_newline : elem 10 name ≡ false
  pub short : length name < 253

abbrev pub AllLines : List Bytes → Type 0
AllLines [] = Unit
AllLines (name ∷ names) = IsLine name × AllLines names

-- The file with each name on a line of its own.
unfoldable pub unlines : List Bytes → Bytes
unlines [] = []
unlines (name ∷ names) = name ++ (10 ∷ unlines names)

pub is_among : Bytes → List Bytes → Bool
is_among name [] = false
is_among name (n ∷ names) = streq name n || is_among name names

fgets_lines-newline :
    (room : ℕ) (name rest : Bytes)
    → elem 10 name ≡ false
    → length name < room
    → fgets_lines room (name ++ 10 ∷ rest) ≡ (name ++ 10 ∷ []) ∷ fgets_lines 253 rest
unfolding fgets_lines
fgets_lines-newline room [] rest h e = ground arith
fgets_lines-newline room (c ∷ name) rest h e =
    let more : length name < room - 1 = omega arith in
    let other : (c == 10) ≡ false = ground arith in
    let wide : (room == 1) ≡ false = ground arith in
    let in_name : elem 10 name ≡ false = ground arith in
    rw (other, wide, fgets_lines-newline (room - 1) name rest in_name more) refl

fgets_lines-unlines :
    (names : List Bytes)
    → AllLines names
    → fgets_lines 253 (unlines names) ≡ map (λ n. n ++ 10 ∷ []) names
unfolding fgets_lines unlines
fgets_lines-unlines [] h = refl
fgets_lines-unlines (n ∷ names) (h, all) =
    fgets_lines-newline 253 n (unlines names) h.no_newline h.short
    ∙ ap (◌∷◌ (n ++ 10 ∷ [])) (fgets_lines-unlines names all)

either : (a b c d : Bool) → (if a || b then ok true else ok (c || d)) ≡ ok ((a || c) || (b || d))
either true b c d = refl
either false true c d = ground arith
either false false c d = refl

-- A whole line is compared without its newline.
is_listed-line :
    (ip hostname name : Bytes) (lines : List Bytes)
    → IsLine name
    → is_listed ip hostname ((name ++ 10 ∷ []) ∷ lines)
      ≡ (if streq ip name || streq hostname name then ok true else is_listed ip hostname lines)
unfolding is_listed
is_listed-line ip hostname [] lines h = absurd (h.ne_nil refl)
is_listed-line ip hostname (c ∷ name) lines h =
    let line = c ∷ (name ++ 10 ∷ []) in
    let no_nul : elem 0 line ≡ false = ground (arith, elem-append 0 name (10 ∷ []), h.no_nul) in
    let other : streq (c ∷ []) (10 ∷ []) ≡ false = ground (arith, h.no_newline) in
    let first : take (length line - 1) line ≡ c ∷ name = take_but_last (c ∷ name) 10 in
    rw (cstr_self line no_nul, other, first) (ground arith)

is_listed-is_among :
    (ip hostname : Bytes) (names : List Bytes)
    → AllLines names
    → is_listed ip hostname (map (λ n. n ++ 10 ∷ []) names)
      ≡ ok (is_among ip names || is_among hostname names)
unfolding is_listed is_among
is_listed-is_among ip hostname [] h = refl
is_listed-is_among ip hostname (n ∷ names) (h, all) =
    is_listed-line ip hostname n (map (λ n'. n' ++ 10 ∷ []) names) h
    ∙ rw (is_listed-is_among ip hostname names all)
        (either (streq ip n) (streq hostname n) (is_among ip names) (is_among hostname names))

-- A file with one name on each line, each with at most 252 bytes and its newline, blocks a host
-- if and only if its name or its address is one of the names.
pub is_blocked-is_among :
    (ip hostname : Bytes) (names : List Bytes)
    → AllLines names
    → is_blocked (some (unlines names)) ip hostname
      ≡ ok (is_among ip names || is_among hostname names)
unfolding is_blocked
is_blocked-is_among ip hostname names h =
    rw (fgets_lines-unlines names h) (is_listed-is_among ip hostname names h)
