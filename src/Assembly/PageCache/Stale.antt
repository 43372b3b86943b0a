-- ===== src/Assembly/PageCache/Stale.antt =====
-- What `next` of the page cache in capturer/extendedassembly.go leaves in a page that is used again.
use data_collector.Base.{ℕ, ◌+◌, ◌-◌, ◌≡◌, refl, [], ok, update, update_self}
use data_collector.Assembly.PageCache.{PageCache, clean, next, replace}

-- The page given back last is handed out next. Its bytes are gone, and the time is new; but the
-- `Skip`, `Start` and `End` of its earlier use are still there.
pub next-replace :
    (ts p : ℕ) (c : PageCache)
    → (c' : PageCache) × (next ts (replace p c) ≡ ok (p, c'))
      × ((c'.pages p).bytes ≡ [])
      × ((c'.pages p).seen ≡ ts)
      × ((c'.pages p).skip ≡ (c.pages p).skip)
      × ((c'.pages p).start ≡ (c.pages p).start)
      × ((c'.pages p).end ≡ (c.pages p).end)
unfolding next replace
next-replace ts p c =
    let page = update_self c.pages p (clean ts (c.pages p)) in
    (
      record c { used = c.used - 1 + 1; pages = update c.pages p (clean ts (c.pages p)) },
      refl,
      rw page,
      rw page,
      rw page,
      rw page,
      rw page,
    )
