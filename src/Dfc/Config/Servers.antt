-- ===== src/Dfc/Config/Servers.antt =====
-- The configuration file with one server on each line, as PA4/client/dfc.c reads it.
use network_systems.Prelude.{
  ◌%◌, ◌^◌, ℕ, suc, ◌-◌, ◌<◌, ◌≡◌, ◌≢◌, ◌∙◌, ◌==◌, refl, sym, ap, Bool, true, false, some, List, [],
  ◌∷◌, ◌++◌, arith, length, take, map, take_but_last, append_assoc, append-nil, lt→ltb,
}
use network_systems.CString.{
  Bytes, pos, decimal, atoi, atoi-decimal, elem-decimal, cstr_self, elem, elem-append, strchr,
  strchr_first, strrchr, strrchr_last, strtok, strtok_token, avoids_single, avoids, elem-avoids,
  strtok_left,
}
use network_systems.Machine.{ok, ◌>>=◌}
use network_systems.Dfc.Config.{
  Net, dfs_connect, getline, conf_line, connect_servers, read_conf, with_status, drop_newline,
  connected, counted, first_line, later_lines,
}

-- A server: what its line has in front of the last blank, its host and port, and its address.
pub record Listed : Type 0 where
  pub title : Bytes
  pub host : Bytes
  pub port : ℕ
  pub address : Bytes

abbrev pub entry : Listed → Bytes
entry s = s.title ++ b' ' ∷ (s.host ++ b':' ∷ decimal s.port)

abbrev pub conf_text : List Listed → Bytes
conf_text [] = []
conf_text (s ∷ more) = entry s ++ b'\n' ∷ conf_text more

-- The title and the host have no byte that ends a part of the line, and the line fits temp_line.
pub record IsListed (net : Net) (s : Listed) : Type 0 where
  pub title_avoids : avoids (0 ∷ 10 ∷ 58 ∷ []) s.title ≡ true
  pub host_avoids : avoids (0 ∷ 10 ∷ 32 ∷ 58 ∷ []) s.host ≡ true
  pub host_ne_nil : s.host ≢ []
  pub short : length (entry s) < 255
  pub known : net.hosts s.host ≡ some s.address
  pub is_port : s.port < 2 ^ 16

abbrev pub AllListed : Net → List Listed → Type 0
AllListed net [] = Unit
AllListed net (s ∷ more) = IsListed net s × AllListed net more

-- Whether the server accepts the connection.
abbrev pub status : Net → Listed → Bool
status net s = net.accepts s.address s.port

elem-entry :
    (c : ℕ) (s : Listed)
    → elem c s.title ≡ false
    → elem c s.host ≡ false
    → elem c (decimal s.port) ≡ false
    → (c == 32) ≡ false
    → (c == 58) ≡ false
    → elem c (entry s) ≡ false
elem-entry c s t h d blank colon =
    rw
      (
        elem-append c s.title (b' ' ∷ (s.host ++ b':' ∷ decimal s.port)),
        elem-append c s.host (b':' ∷ decimal s.port),
        t,
        h,
        d,
        blank,
        colon,
      )
      refl

drop_newline-line : (s : Bytes) → drop_newline (s ++ 10 ∷ []) ≡ ok s
drop_newline-line [] = refl
drop_newline-line (c ∷ s) = ap ok (take_but_last (c ∷ s) 10)

first_line-line : (s rest : Bytes) → elem 10 s ≡ false → first_line (s ++ 10 ∷ rest) ≡ s ++ 10 ∷ []
first_line-line [] rest h = refl
first_line-line (c ∷ s) rest h = ground (arith, first_line-line s rest)

later_lines-line : (s rest : Bytes) → elem 10 s ≡ false → later_lines (s ++ 10 ∷ rest) ≡ rest
later_lines-line [] rest h = refl
later_lines-line (c ∷ s) rest h = ground (arith, later_lines-line s rest)

getline-line :
    (line s rest : Bytes) → elem 10 s ≡ false → getline line (s ++ 10 ∷ rest) ≡ (s ++ 10 ∷ [], rest)
unfolding getline
getline-line line [] rest h = refl
getline-line line (c ∷ s) rest h =
    rw (first_line-line (c ∷ s) rest h, later_lines-line (c ∷ s) rest h) refl

module _ (net : Net) (s : Listed) (h : IsListed net s) where
  no_newline : elem 10 (entry s) ≡ false
  no_newline =
      elem-entry 10 s (elem-avoids 10 (0 ∷ 10 ∷ 58 ∷ []) s.title h.title_avoids refl)
        (elem-avoids 10 (0 ∷ 10 ∷ 32 ∷ 58 ∷ []) s.host h.host_avoids refl)
        (elem-decimal 10 s.port refl) refl refl

  no_nul : elem 0 (entry s ++ 10 ∷ []) ≡ false
  no_nul =
      elem-append 0 (entry s) (10 ∷ [])
      ∙ rw
          (elem-entry 0 s (elem-avoids 0 (0 ∷ 10 ∷ 58 ∷ []) s.title h.title_avoids refl)
            (elem-avoids 0 (0 ∷ 10 ∷ 32 ∷ 58 ∷ []) s.host h.host_avoids refl)
            (elem-decimal 0 s.port refl) refl refl)
          refl

  last_blank : strrchr (entry s) 32 ≡ some (32 ∷ (s.host ++ 58 ∷ decimal s.port))
  last_blank = strrchr_last s.title (s.host ++ 58 ∷ decimal s.port) 32 (
      elem-append 32 s.host (58 ∷ decimal s.port)
      ∙ rw
          (
            elem-avoids 32 (0 ∷ 10 ∷ 32 ∷ 58 ∷ []) s.host h.host_avoids refl,
            elem-decimal 32 s.port refl,
          )
          refl)

  first_colon : strchr (entry s) 58 ≡ some (58 ∷ decimal s.port)
  first_colon =
      ap (λ l. strchr l 58) (sym (append_assoc s.title (32 ∷ s.host) (58 ∷ decimal s.port)))
      ∙ strchr_first (s.title ++ 32 ∷ s.host) (decimal s.port) 58 (
          elem-append 58 s.title (32 ∷ s.host)
          ∙ rw
              (
                elem-avoids 58 (0 ∷ 10 ∷ 58 ∷ []) s.title h.title_avoids refl,
                elem-avoids 58 (0 ∷ 10 ∷ 32 ∷ 58 ∷ []) s.host h.host_avoids refl,
              )
              refl)

  host_token :
      strtok (58 ∷ []) (s.host ++ 58 ∷ decimal s.port)
      ≡ record { token = some s.host; saved = decimal s.port }
  host_token =
      strtok_token (58 ∷ []) s.host 58 (decimal s.port) h.host_ne_nil
        (avoids_single 58 s.host (elem-avoids 58 (0 ∷ 10 ∷ 32 ∷ 58 ∷ []) s.host h.host_avoids refl))
        refl

  atoi-port : atoi (decimal s.port) ≡ pos s.port
  atoi-port = ap atoi (sym (append-nil (decimal s.port))) ∙ atoi-decimal s.port [] tt

  -- What stands behind the blank.
  abbrev behind_blank : Bytes
  behind_blank = s.host ++ 58 ∷ decimal s.port

  conf_line-entry :
      (left : Bytes) × (conf_line (entry s ++ 10 ∷ []) ≡ ok (s.host, pos s.port, left))
  unfolding conf_line
  conf_line-entry = (
    take (length (entry s) - length behind_blank) (entry s) ++ strtok_left (58 ∷ []) behind_blank,
    rw
        (
          cstr_self (entry s ++ 10 ∷ []) no_nul,
          drop_newline-line (entry s),
          lt→ltb (length (entry s)) 255 h.short,
          last_blank,
          host_token,
          first_colon,
          atoi-port,
        )
        refl,
  )

dfs_connect-known :
    (net : Net) (s : Listed)
    → IsListed net s
    → dfs_connect net (pos s.port) s.host ≡ some (status net s)
unfolding dfs_connect
dfs_connect-known net s h = rw (dfs_connect, h.known, low_bits) refl
  where
    low_bits : s.port % 2 ^ 16 ≡ s.port
    low_bits = omega (arith, h.is_port)

-- A line is read, its server is connected to, and the rest of the file is read in the same way.
connect_servers-line :
    (net : Net) (s : Listed) (n : ℕ) (line rest : Bytes)
    → IsListed net s
    → (left : Bytes) × (connect_servers net (suc n) line (entry s ++ 10 ∷ rest)
        ≡ (connect_servers net n left rest >>= λ more. ok (with_status (status net s) more)))
unfolding connect_servers
connect_servers-line net s n line rest h =
    let (left, read) = conf_line-entry net s h in
    (
      left,
      ap
            (λ (l : Bytes × Bytes).
              conf_line l.0 >>= connected net (λ left'. connect_servers net n left' l.1))
            (getline-line line (entry s) rest (no_newline net s h))
          ∙ ap (λ r. r >>= connected net (λ left'. connect_servers net n left' rest)) read
          ∙ ap (λ up. counted up (connect_servers net n left rest)) (dfs_connect-known net s h),
    )

connect_servers-conf_text :
    (net : Net) (servers : List Listed) (line : Bytes)
    → AllListed net servers
    → connect_servers net (length servers) line (conf_text servers)
      ≡ ok (some (map (status net) servers))
unfolding connect_servers
connect_servers-conf_text net [] line h = refl
connect_servers-conf_text net (s ∷ more) line (h, all) =
    let (left, step) = connect_servers-line net s (length more) line (conf_text more) h in
    step ∙ rw (connect_servers-conf_text net more left all) refl

-- A file with four lines, each a title, a blank, a host that is found, a colon and a port, connects
-- the client to these hosts and ports in order, and gives for each whether it is up. A title has no
-- colon, NUL or newline, a host also no blank and at least one byte, a port is below 65536, and a
-- line has at most 254 bytes.
pub read_conf-conf_text :
    (net : Net) (heap : Bytes) (servers : List Listed)
    → AllListed net servers
    → length servers ≡ 4
    → read_conf net heap (some (conf_text servers)) ≡ ok (some (map (status net) servers))
unfolding read_conf
read_conf-conf_text net heap servers h four =
    ap (λ n. connect_servers net n heap (conf_text servers)) (sym four)
    ∙ connect_servers-conf_text net servers heap h
