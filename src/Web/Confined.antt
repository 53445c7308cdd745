-- ===== src/Web/Confined.antt =====
-- The paths that the web server of PA2/server.c looks at: www and the URI behind it.
use network_systems.Prelude.{
  ℕ, zero, suc, ◌≡◌, refl, Bool, false, not, ◌||◌, ◌++◌, some, arith, length, ◌==◌, Bool-cases,
  Option-cases, inl, inr, ltb,
}
use network_systems.CString.{Bytes, codes, contains}
use network_systems.Machine.{Result, ok, err, ◌>>=◌, deref, fits}
use network_systems.Machine.Results.{
  Every, every_ok, Every-bind, Every-if, bind-Every, Every-refl, Every-fits,
}
use network_systems.Stream.{Segments, recv, bufsize}
use network_systems.Web.Request.{Garbage, HttpRequest, read_request}
use network_systems.Web.Reply.{Connection}
use network_systems.Web.Steps.{after, serve-parse_request}
use network_systems.Web.Service.{
  Disk, Handled, returned, exited, parse_request, serve, relative_path, service_request, dispatch,
  handle, temp_size, is_some, default_connection, received_text,
}

-- Two file systems that agree at every path that begins with the letters www and goes on with a text
-- without "..". A URI that does not begin with a slash names a neighbour of www, as www2/secret.
pub record SameWww (disk disk' : Disk) : Type 0 where
  pub directory :
      (uri : Bytes)
      → contains uri (codes "..") ≡ false
      → disk.is_directory (codes "www" ++ uri) ≡ disk'.is_directory (codes "www" ++ uri)
  pub file :
      (uri : Bytes)
      → contains uri (codes "..") ≡ false
      → disk.file (codes "www" ++ uri) ≡ disk'.file (codes "www" ++ uri)
  pub html :
      (uri : Bytes)
      → contains uri (codes "..") ≡ false
      → disk.file (codes "www" ++ uri ++ codes "/index.html")
        ≡ disk'.file (codes "www" ++ uri ++ codes "/index.html")
  pub htm :
      (uri : Bytes)
      → contains uri (codes "..") ≡ false
      → disk.file (codes "www" ++ uri ++ codes "/index.htm")
        ≡ disk'.file (codes "www" ++ uri ++ codes "/index.htm")

fits-ok : (n : ℕ) (s t : Bytes) → fits n s ≡ ok t → s ≡ t
fits-ok n s t e = elim (Bool-cases (ltb (length s) n)) [
  | inl short ↦ cc (rw short at e)
  | inr long ↦ absurd (cc (rw long at e))
]

module _ (disk disk' : Disk) (same : SameWww disk disk') where
  relative_path-SameWww :
      (uri : Bytes)
      → contains uri (codes "..") ≡ false
      → relative_path disk uri ≡ relative_path disk' uri
  unfolding relative_path
  relative_path-SameWww uri h = ground (arith, same.directory uri h, same.html uri h)

  file-relative_path :
      (uri : Bytes)
      → contains uri (codes "..") ≡ false
      → Every (λ path. disk.file path ≡ disk'.file path) (relative_path disk' uri)
  unfolding relative_path
  file-relative_path uri h = Every-bind {m = fits temp_size (codes "www" ++ uri)} (λ path e.
      Every-if (disk'.is_directory path)
        (Every-bind {m = fits temp_size (codes "www" ++ uri ++ codes "/index.html")} (λ index e₂.
          Every-if (is_some (disk'.file index))
            (every_ok index (
              rw (fits-ok temp_size (codes "www" ++ uri ++ codes "/index.html") index e₂) at
                (same.html uri h)))
            (Every-fits (λ p. disk.file p ≡ disk'.file p) temp_size
              (codes "www" ++ uri ++ codes "/index.htm") (same.htm uri h))))
        (every_ok path (rw (fits-ok temp_size (codes "www" ++ uri) path e) at (same.file uri h))))

  service_request-SameWww :
      (g : Garbage) (running : Bool) (r : HttpRequest) (c : Connection) (uri : Bytes)
      → r.uri ≡ some uri
      → contains uri (codes "..") ≡ false
      → service_request disk g running r c ≡ service_request disk' g running r c
  unfolding service_request
  service_request-SameWww g running r c uri e h =
      rw (e, relative_path-SameWww uri h)
        (bind-Every (Every-refl (deref r.version >>= fits temp_size)) (λ version _.
          bind-Every (Every-refl (deref r.connection >>= fits temp_size))
            (λ connection _. bind-Every (file-relative_path uri h) (λ path found. rw found))))

  dispatch-SameWww :
      (g : Garbage) (running : Bool) (method uri version : Bytes) (r : HttpRequest) (c : Connection)
      → r.uri ≡ some uri
      → dispatch disk g running method uri version r c
        ≡ dispatch disk' g running method uri version r c
  unfolding dispatch
  dispatch-SameWww g running method uri version r c e =
      elim (Bool-cases (contains uri (codes ".."))) [
        | inl up ↦ rw up
        | inr below ↦ rw (below, service_request-SameWww g running r c uri e below)
      ]

  handle-SameWww :
      (g : Garbage) (running : Bool) (r : HttpRequest) (c : Connection)
      → handle disk g running r c ≡ handle disk' g running r c
  unfolding handle
  handle-SameWww g running r c = elim (Option-cases r.method) [
    | inl e ↦ rw e
    | inr (method, e) ↦ rw e (elim (Option-cases r.uri) [
      | inl e₂ ↦ rw e₂
      | inr (uri, e₂) ↦ rw e₂ (elim (Option-cases r.version) [
        | inl e₃ ↦ rw e₃
        | inr (version, e₃) ↦ rw e₃ (
            dispatch-SameWww g running method uri version
              (record r {
                method = some method;
                connection = default_connection version r.connection;
              })
              c e₂)
      ])
    ])
  ]

  parse_request-SameWww :
      (g : Garbage) (running : Bool) (buf : Bytes) (c : Connection)
      → parse_request disk g running buf c ≡ parse_request disk' g running buf c
  unfolding parse_request
  parse_request-SameWww g running buf c =
      bind-Every (Every-refl (read_request g (received_text g buf)))
        (λ r _. handle-SameWww g running r c)

  after-SameWww :
      (fuel : ℕ) (g : ℕ → Garbage) (running : ℕ → Bool) (rest : Segments) (r : Result Handled)
      → ((c : Connection) → serve fuel disk g running rest c ≡ serve fuel disk' g running rest c)
      → after fuel disk g running rest r ≡ after fuel disk' g running rest r
  after-SameWww fuel g running rest (ok (returned c)) later = later c
  after-SameWww fuel g running rest (ok (exited c)) later = refl
  after-SameWww fuel g running rest (err fault) later = refl

  -- What a process sends, and when it ends, whatever its client requests, depends on no other paths
  -- than those that begin with the letters www and go on with a text without "..". A neighbour of
  -- www such as www2/secret is among them.
  pub serve-SameWww :
      (fuel : ℕ) (g : ℕ → Garbage) (running : ℕ → Bool) (inbound : Segments) (c : Connection)
      → serve fuel disk g running inbound c ≡ serve fuel disk' g running inbound c
  unfolding serve
  serve-SameWww zero g running inbound c = refl
  serve-SameWww (suc fuel) g running inbound c =
      elim (Bool-cases (length (recv bufsize inbound).0 == 0 || not c.is_open)) [
        | inl over ↦ rw over
        | inr more ↦
            rw
              (
                serve-parse_request fuel disk g running inbound c more,
                serve-parse_request fuel disk' g running inbound c more,
                parse_request-SameWww (g fuel) (running fuel) (recv bufsize inbound).0 c,
              )
              (after-SameWww fuel g running (recv bufsize inbound).1
                (parse_request disk' (g fuel) (running fuel) (recv bufsize inbound).0 c)
                (serve-SameWww fuel g running (recv bufsize inbound).1))
      ]
