-- ===== src/Proxy/Cache/Kept.antt =====
-- About a page that comes from the cache: the cache and the origin servers behind it.
use network_systems.Prelude.{◌≡◌, refl, ◌++◌}
use network_systems.CString.{codes}
use network_systems.Stream.{bufsize}
use network_systems.Machine.{◌>>=◌, deref, fits}
use network_systems.Machine.Results.{Every, every_ok, Every-bind}
use network_systems.Web.Service.{temp_size}
use network_systems.Proxy.Relay.{Wanted}
use network_systems.Proxy.World.{World, Scene}
use network_systems.Proxy.Cache.{send_from_cache}
use network_systems.Proxy.Cache.Laws.{cache_header}

-- The client may have got something; the rest of the world is as it was.
pub record Kept (w w' : World) : Type 0 where
  pub asked : w'.asked ≡ w.asked
  pub cache : w'.cache ≡ w.cache

-- If it does not break.
pub send_from_cache-Kept :
    (s : Scene) (q : Wanted) (w : World) → Every (Kept w) (send_from_cache s q w)
unfolding send_from_cache
send_from_cache-Kept s q w = Every-bind {m = fits temp_size q.version} (λ version _.
    Every-bind {m = deref q.request.connection >>= fits temp_size} (λ connection _.
      Every-bind {m = fits temp_size (codes "cache/" ++ q.hash)} (λ path _.
        Every-bind {m = deref (w.cache q.hash)} (λ entry _.
          Every-bind
            {m = fits bufsize
              (cache_header s (record q { version = version }) connection entry.content)}
            (λ header _. every_ok _ (record { asked = refl; cache = refl }))))))
