-- ===== src/DataFetch/Fetch/Fresh.antt =====
-- backend/cmd/data-fetch/main.go: the pages that readCache returns.
use civika.Prelude.{
  ℕ, ◌≡◌, refl, subst, true, false, none, some, [], Bool-cases, Option-cases, inl, inr, ◌⊎◌,
}
use civika.Prelude.Result.{ok, err, Result-cases}
use civika.Text.{Str, eqb, Runtime, trim_space}
use civika.DataFetch.Urls.{UrlOps}
use civika.DataFetch.Fetch.{
  cache_paths, validate_sha, CacheMeta, FileRead, found, missing, broken, Page, System, Fetcher,
  read_body, is_past_ttl, read_entry, read_cache,
}

FileRead-cases :
    (r : FileRead) → ((s : Str) × (r ≡ found s)) ⊎ ((r ≡ missing) ⊎ ((s : Str) × (r ≡ broken s)))
FileRead-cases (found s) = inl (s, refl)
FileRead-cases missing = inr (inl refl)
FileRead-cases (broken s) = inr (inr (s, refl))

module _ {W : Type 0} (rt : Runtime) (ops : UrlOps) (sys : System W) (f : Fetcher) where
  -- The page is the body of the entry, which fits the hash and the type of its description.
  abbrev IsStored : Str → CacheMeta → W → Page → Type 0
  IsStored body_path meta w page =
      (sys.read_file w body_path ≡ found page.0)
      × (validate_sha rt ops page.0 meta.sha256 ≡ true)
      × (page.1 ≡ meta.content_type)

  -- A page whose description is in the cache, was fetched at a time, and has not expired since.
  pub record IsFresh (url : Str) (w : W) (page : Page) : Type 0 where
    pub raw : Str
    pub meta : CacheMeta
    pub time : ℕ
    pub described : sys.read_file w (cache_paths rt ops sys.join_path f.cache_dir url).0 ≡ found raw
    pub decoded : sys.decode_meta raw ≡ ok meta
    pub timed : sys.parse_time meta.fetched_at_utc ≡ some time
    pub fresh : is_past_ttl rt ops sys f time w ≡ false
    pub stored : IsStored (cache_paths rt ops sys.join_path f.cache_dir url).1 meta w page

  read_body-IsStored :
      (body_path : Str) (meta : CacheMeta) (w : W) (page : Page)
      → read_body rt ops sys f body_path meta w ≡ ok (some page)
      → IsStored body_path meta w page
  unfolding read_body
  read_body-IsStored body_path meta w page h = elim (FileRead-cases (sys.read_file w body_path)) [
    | inl (body, e) ↦ elim (Bool-cases (validate_sha rt ops body meta.sha256)) [
      | inl v ↦
          let i : ok (some (body, meta.content_type)) ≡ ok (some page) =
            rw (read_body, e, v) at h in
          subst (IsStored body_path meta w) (let j : (body, meta.content_type) ≡ page = cc in j)
            (e, v, refl)
      | inr v ↦ absurd (let i : ok none ≡ ok (some page) = rw (read_body, e, v) at h in cc)
    ]
    | inr m ↦ elim m [
      | inl e ↦ absurd (let i : ok none ≡ ok (some page) = rw (read_body, e) at h in cc)
      | inr b ↦
          let (s, e) = b in absurd (let i : err s ≡ ok (some page) = rw (read_body, e) at h in cc)
    ]
  ]

  read_entry_lem :
      (body_path : Str) (meta : CacheMeta) (w : W) (page : Page)
      → read_entry rt ops sys f body_path meta w ≡ ok (some page)
      → (time : ℕ) × (sys.parse_time meta.fetched_at_utc ≡ some time)
        × (is_past_ttl rt ops sys f time w ≡ false)
        × IsStored body_path meta w page
  unfolding read_entry
  read_entry_lem body_path meta w page h =
      elim (Option-cases (sys.parse_time meta.fetched_at_utc)) [
        | inl n ↦ absurd (let i : ok none ≡ ok (some page) = rw (read_entry, n) at h in cc)
        | inr (time, n) ↦ elim (Bool-cases (is_past_ttl rt ops sys f time w)) [
          | inl x ↦ absurd (let i : ok none ≡ ok (some page) = rw (read_entry, n, x) at h in cc)
          | inr x ↦
              (time, n, x, read_body-IsStored body_path meta w page (rw (read_entry, n, x) at h))
        ]
      ]

  -- A page that readCache returns is the body stored under the address, which fits the hash of its
  -- description, with the content type of the description; the description was read and decoded, has a
  -- valid time, and has not expired.
  pub read_cache-IsFresh :
      (url : Str) (w : W) (page : Page)
      → read_cache rt ops sys f url w ≡ ok (some page)
      → IsFresh url w page
  unfolding read_cache
  read_cache-IsFresh url w page h =
      let paths = cache_paths rt ops sys.join_path f.cache_dir url in
      elim (Bool-cases (eqb (trim_space f.cache_dir) [])) [
        | inl t ↦ absurd (let i : ok none ≡ ok (some page) = rw (read_cache, t) at h in cc)
        | inr t ↦ elim (FileRead-cases (sys.read_file w paths.0)) [
          | inl (raw, e) ↦ elim (Result-cases (sys.decode_meta raw)) [
            | inl (meta, m) ↦
                let (time, n, x, stored) =
                  read_entry_lem paths.1 meta w page (rw (read_cache, t, e, m) at h) in
                record {
                  raw = raw;
                  meta = meta;
                  time = time;
                  described = e;
                  decoded = m;
                  timed = n;
                  fresh = x;
                  stored = stored;
                }
            | inr (message, m) ↦
                absurd (let i : err message ≡ ok (some page) = rw (read_cache, t, e, m) at h in cc)
          ]
          | inr k ↦ elim k [
            | inl e ↦ absurd (let i : ok none ≡ ok (some page) = rw (read_cache, t, e) at h in cc)
            | inr b ↦
                let (s, e) = b in
                absurd (let i : err s ≡ ok (some page) = rw (read_cache, t, e) at h in cc)
          ]
        ]
      ]
