-- ===== src/Dfc/Listing.antt =====
-- The list of PA4/client/dfc.c: what each server has goes into the file dfs_list.
use network_systems.Prelude.{
  ℕ, ◌≤◌, ◌<◌, ◌≡◌, ◌≢◌, refl, sym, ap, ◌∙◌, Bool, true, Option, none, some, List, [], ◌∷◌, ◌++◌,
  arith, if◌then◌else◌, length, append_assoc, append-nil, Bool-cases, inl, inr,
}
use network_systems.CString.{Bytes, codes}
use network_systems.Stream.{Segments}
use network_systems.Machine.{Result, ok, err, overflow, ◌>>=◌}
use network_systems.ChunkServer.{ChunkServer}
use network_systems.Dfc.Network.{Client, send, receive}
use network_systems.Dfc.Exchange.{IsTransport, IsQuiet, Exchanged, receive-send_within}

-- sizeof("list")
abbrev pub list_message : Bytes
list_message = codes "list" ++ 0 ∷ []

-- DFS1 to DFS4
abbrev pub all_servers : List ℕ
all_servers = 1 ∷ 2 ∷ 3 ∷ 4 ∷ []

module _ {server : ChunkServer} (cut : Bytes → Segments) where
  -- What recv gives is written to the file; at a timeout fwrite is called with the length -1.
  abbrev pub written : Bytes → Option (Bytes × Client server) → Result (Client server × Bytes)
  written file none = err overflow
  written file (some (buf, c)) = ok (c, file ++ buf)

  -- The servers of the loop, over the file so far.
  unfoldable pub list_servers : List ℕ → Client server → Bytes → Result (Client server × Bytes)
  list_servers [] c file = ok (c, file)
  list_servers (d ∷ more) c file = do
    (c', file') ←
        if c.live d then written file (receive 1024 d (send cut d list_message c)) else ok (c, file)
    list_servers more c' file'

  -- The marker that ends a session, to each live server.
  unfoldable pub send_done : List ℕ → Bytes → Client server → Client server
  send_done [] marker c = c
  send_done (d ∷ more) marker c =
      send_done more marker (if c.live d then send cut d marker c else c)

  -- The command "list".
  unfoldable pub list : Client server → Result (Client server × Bytes)
  list c = do
    (c', dfs_list) ← list_servers all_servers c []
    ok (send_done all_servers (codes "ls done") c', dfs_list)

-- What each server of a list replies to the message.
abbrev pub Lists : {server : ChunkServer} → (ℕ → Bytes) → List ℕ → Client server → Type 0
Lists texts [] c = Unit
Lists {server} texts (d ∷ more) c =
    (c.live d ≡ true
      → ((server.exchange list_message (c.nodes d)).0 ≡ some (texts d))
        × (0 < length (texts d))
        × (length (texts d) ≤ 1024))
    × Lists texts more c

-- The replies of the live servers, one behind the other.
abbrev pub live_texts : (ℕ → Bytes) → (ℕ → Bool) → List ℕ → Bytes
live_texts texts live [] = []
live_texts texts live (d ∷ more) =
    let rest = live_texts texts live more in if live d then texts d ++ rest else rest

abbrev pub Avoids : ℕ → List ℕ → Type 0
Avoids d [] = Unit
Avoids d (e ∷ more) = (e ≢ d) × Avoids d more

abbrev pub Distinct : List ℕ → Type 0
Distinct [] = Unit
Distinct (d ∷ more) = Avoids d more × Distinct more

module _ {server : ChunkServer} {cut : Bytes → Segments} (net : IsTransport cut)
    (texts : ℕ → Bytes) where
  Lists-Exchanged :
      (ds : List ℕ) (c c' : Client server) (d : ℕ) (message : Bytes)
      → Exchanged net c d message c'
      → Avoids d ds
      → Lists texts ds c
      → Lists texts ds c'
  Lists-Exchanged [] c c' d message x a l = tt
  Lists-Exchanged (e ∷ ds) c c' d message x (ne, a) (h, l) =
      (rw (x.others e ne, x.live) h, Lists-Exchanged ds c c' d message x a l)

  list_servers-live_texts :
      (ds : List ℕ) (c : Client server) (file : Bytes)
      → Distinct ds
      → IsQuiet c
      → Lists texts ds c
      → (c' : Client server) × (list_servers cut ds c file
          ≡ ok (c', file ++ live_texts texts c.live ds))
  unfolding list_servers
  list_servers-live_texts [] c file dist quiet l = (c, ap (λ f. ok (c, f)) (sym (append-nil file)))
  list_servers-live_texts (d ∷ ds) c file (a, dist) quiet (h, l) = elim (Bool-cases (c.live d)) [
    | inr down ↦
        let (c', e) = list_servers-live_texts ds c file dist quiet l in (c', rw (down, e) refl)
    | inl up ↦
        let (replied, some_bytes, short) = h up in
        let (c₁, took, x) =
          receive-send_within net 1024 c d list_message (texts d) quiet replied some_bytes short
            short in
        let (c', e) =
          list_servers-live_texts ds c₁ (file ++ texts d) dist x.quiet
            (Lists-Exchanged ds c c₁ d list_message x a l) in
        (
          c',
          rw (up, took, e)
              (ap (λ v. ok (c', (file ++ texts d) ++ live_texts texts v ds)) x.live
                ∙ ap (λ f. ok (c', f)) (append_assoc file (texts d) (live_texts texts c.live ds))),
        )
  ]

  -- The file dfs_list holds the replies of the servers that are up, one behind the other, if each
  -- of them replies with 1 to 1024 bytes; then each is sent the marker that ends the session.
  pub list-live_texts :
      (c : Client server)
      → IsQuiet c
      → Lists texts all_servers c
      → (c' : Client server) × (list cut c
          ≡ ok
              (send_done cut all_servers (codes "ls done") c', live_texts texts c.live all_servers))
  unfolding list
  list-live_texts c quiet l =
      let (c', e) = list_servers-live_texts all_servers c [] distinct quiet l in (c', rw e refl)
    where
      distinct : Distinct all_servers
      distinct = (
        (omega arith, (omega arith, (omega arith, tt))),
        ((omega arith, (omega arith, tt)), ((omega arith, tt), (tt, tt))),
      )
