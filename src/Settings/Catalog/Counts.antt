-- ===== src/Settings/Catalog/Counts.antt =====
-- What the statistics of the settings page count.
use multi_job.Prelude.{
  ℕ, ◌+◌, ◌≤◌, Bool, true, false, not, ◌&&◌, String, ◌==◌, eq_iff, List, [], ◌∷◌, map, filter,
  count_of, count_of-le-length, length-filter, length, if◌then◌else◌, ◌≡◌, refl, sym, ap, ◌∙◌,
  arith, Bool-cases, inl, inr,
}
use multi_job.Js.Dict.{Dict, lookup, put, lookup-put}
use multi_job.Settings.Bulk.{IntegrationAccount}
use multi_job.Settings.Mcp.{McpIntegrationServer, McpServerTemplate}
use multi_job.Settings.Telegram.{TelegramConnectorAccount}
use multi_job.Settings.Catalog.{
  IntegrationProviderTemplate, statistik_kesiapan, StatistikAkun, statistik_dari, tambah_akun,
  hitung_akun, statistik_akun_provider_bulk, statistik_provider_terpilih,
  id_template_provider_kurang, id_template_mcp_kurang, punya_akun, punya_server, di_katalog,
  di_katalog_mcp,
}

and_true {ℓ} :
    {A : Type ℓ} (p : A → Bool) (as' : List A) → count_of (λ a. p a && true) as' ≡ count_of p as'
and_true p [] = refl
and_true p (a ∷ as') = ground (arith, and_true p as')

module _ (provider : String) where
  abbrev hitung : (IntegrationAccount → Bool) → List IntegrationAccount → ℕ
  hitung p rows = count_of (λ (row : IntegrationAccount). (row.provider == provider) && p row) rows

  abbrev jumlah : StatistikAkun → List IntegrationAccount → StatistikAkun
  jumlah start rows = record {
    total = start.total + hitung (λ row. true) rows;
    enabled = start.enabled + hitung (λ row. row.enabled) rows;
    ready = start.ready + hitung (λ row. row.has_secret) rows;
  }

  jumlah-nil : (c : StatistikAkun) → jumlah c [] ≡ c
  jumlah-nil c =
      let t : c.total + 0 ≡ c.total = omega arith in
      let e : c.enabled + 0 ≡ c.enabled = omega arith in
      let r : c.ready + 0 ≡ c.ready = omega arith in cc (t, e, r)

  jumlah-cons-same :
      (row : IntegrationAccount) (rows : List IntegrationAccount) (c : StatistikAkun)
      → (row.provider == provider) ≡ true
      → jumlah (tambah_akun row c) rows ≡ jumlah c (row ∷ rows)
  unfolding tambah_akun
  jumlah-cons-same row rows c h =
      let t : c.total + 1 + hitung (λ row. true) rows
          ≡ c.total + hitung (λ row. true) (row ∷ rows) =
        ground (arith, h) in
      let e : c.enabled + (if row.enabled then 1 else 0) + hitung (λ row. row.enabled) rows
          ≡ c.enabled + hitung (λ row. row.enabled) (row ∷ rows) =
        ground (arith, h) in
      let r : c.ready + (if row.has_secret then 1 else 0) + hitung (λ row. row.has_secret) rows
          ≡ c.ready + hitung (λ row. row.has_secret) (row ∷ rows) =
        ground (arith, h) in
      cc (t, e, r)

  jumlah-cons-other :
      (row : IntegrationAccount) (rows : List IntegrationAccount) (c : StatistikAkun)
      → (row.provider == provider) ≡ false
      → jumlah c rows ≡ jumlah c (row ∷ rows)
  jumlah-cons-other row rows c h =
      let t : c.total + hitung (λ row. true) rows ≡ c.total + hitung (λ row. true) (row ∷ rows) =
        ground (arith, h) in
      let e : c.enabled + hitung (λ row. row.enabled) rows
          ≡ c.enabled + hitung (λ row. row.enabled) (row ∷ rows) =
        ground (arith, h) in
      let r : c.ready + hitung (λ row. row.has_secret) rows
          ≡ c.ready + hitung (λ row. row.has_secret) (row ∷ rows) =
        ground (arith, h) in
      cc (t, e, r)

  -- What the loop has counted of the provider when it has seen the row.
  abbrev baru_dihitung : IntegrationAccount → Dict StatistikAkun → StatistikAkun
  baru_dihitung row output = statistik_dari (
      lookup provider
        (put row.provider (tambah_akun row (statistik_dari (lookup row.provider output))) output))

  baru_dihitung-same :
      (row : IntegrationAccount) (rows : List IntegrationAccount) (output : Dict StatistikAkun)
      → row.provider ≡ provider
      → jumlah (baru_dihitung row output) rows
        ≡ jumlah (statistik_dari (lookup provider output)) (row ∷ rows)
  unfolding tambah_akun
  baru_dihitung-same row rows output same =
      let cur = statistik_dari (lookup provider output) in
      let e : (row.provider == provider) ≡ true = (eq_iff row.provider provider).1 same in
      let found : baru_dihitung row output ≡ tambah_akun row cur =
        ap statistik_dari (
          lookup-put provider row.provider
            (tambah_akun row (statistik_dari (lookup row.provider output))) output)
        ∙ rw (e, same) refl in
      ap (λ c. jumlah c rows) found ∙ jumlah-cons-same row rows cur e

  baru_dihitung-other :
      (row : IntegrationAccount) (rows : List IntegrationAccount) (output : Dict StatistikAkun)
      → (row.provider == provider) ≡ false
      → jumlah (baru_dihitung row output) rows
        ≡ jumlah (statistik_dari (lookup provider output)) (row ∷ rows)
  baru_dihitung-other row rows output e =
      let cur = statistik_dari (lookup provider output) in
      let found : baru_dihitung row output ≡ cur =
        ap statistik_dari (
          lookup-put provider row.provider
            (tambah_akun row (statistik_dari (lookup row.provider output))) output)
        ∙ rw e refl in
      ap (λ c. jumlah c rows) found ∙ jumlah-cons-other row rows cur e

  lookup-hitung_akun :
      (rows : List IntegrationAccount) (output : Dict StatistikAkun)
      → statistik_dari (lookup provider (hitung_akun rows output))
        ≡ jumlah (statistik_dari (lookup provider output)) rows
  unfolding hitung_akun
  lookup-hitung_akun [] output = sym (jumlah-nil (statistik_dari (lookup provider output)))
  lookup-hitung_akun (row ∷ rows) output =
      lookup-hitung_akun rows
        (put row.provider (tambah_akun row (statistik_dari (lookup row.provider output))) output)
      ∙ elim (Bool-cases (row.provider == provider)) [
        | inl e ↦ baru_dihitung-same row rows output ((eq_iff row.provider provider).0 e)
        | inr e ↦ baru_dihitung-other row rows output e
      ]

-- The numbers that the page shows of a provider are those of its accounts: all, the enabled ones and
-- those with a secret. A provider without accounts has zeros.
pub statistik_provider_terpilih_lem :
    (rows : List IntegrationAccount) (provider : String)
    → statistik_provider_terpilih rows provider ≡ record {
      total = count_of (λ (row : IntegrationAccount). row.provider == provider) rows;
      enabled =
          count_of (λ (row : IntegrationAccount). (row.provider == provider) && row.enabled) rows;
      ready =
          count_of
            (λ (row : IntegrationAccount). (row.provider == provider) && row.has_secret)
            rows;
    }
unfolding statistik_provider_terpilih statistik_akun_provider_bulk lookup
statistik_provider_terpilih_lem rows provider =
    let t : 0 + hitung provider (λ row. true) rows
        ≡ count_of (λ (row : IntegrationAccount). row.provider == provider) rows =
      omega (arith, and_true (λ (row : IntegrationAccount). row.provider == provider) rows) in
    let e : 0 + hitung provider (λ row. row.enabled) rows
        ≡ hitung provider (λ row. row.enabled) rows =
      omega arith in
    let r : 0 + hitung provider (λ row. row.has_secret) rows
        ≡ hitung provider (λ row. row.has_secret) rows =
      omega arith in
    lookup-hitung_akun provider rows [] ∙ cc (t, e, r)

length-kurang :
    {A : Type 0} (name : A → String) (p : A → Bool) (rows : List A)
    → length (map name (filter (λ a. not (p a)) rows)) + count_of p rows ≡ length rows
length-kurang name p [] = refl
length-kurang name p (a ∷ rows) = ground (arith, length-kurang name p rows)

count-filter :
    {A : Type 0} (p q : A → Bool) (rows : List A)
    → length (filter q (filter p rows)) ≤ length (filter p rows)
count-filter p q rows =
    omega (arith, length-filter q (filter p rows), count_of-le-length q (filter p rows))

count-all : {A : Type 0} (p : A → Bool) (rows : List A) → length (filter p rows) ≤ length rows
count-all p rows = omega (arith, length-filter p rows, count_of-le-length p rows)

-- The numbers of the readiness are ordered: no more accounts or servers are enabled or ready than
-- stand in the catalogue, and no more of those than there are. The templates that are missing are
-- those without an account or a server, so that with the others they are all templates.
statistik_kesiapan_lem :
    (katalog : List IntegrationProviderTemplate) (katalog_mcp : List McpServerTemplate)
    (akun : List IntegrationAccount) (servers : List McpIntegrationServer)
    (telegram : List TelegramConnectorAccount)
    → let s = statistik_kesiapan katalog katalog_mcp akun servers telegram in
      (s.provider_enabled ≤ s.provider_configured)
      × (s.provider_ready ≤ s.provider_configured)
      × (s.provider_configured ≤ length akun)
      × (s.mcp_enabled ≤ s.mcp_configured)
      × (s.mcp_configured ≤ length servers)
      × (length (id_template_provider_kurang katalog akun)
            + count_of (λ (row : IntegrationProviderTemplate). punya_akun akun row.provider) katalog
          ≡ s.provider_total)
      × (length (id_template_mcp_kurang katalog_mcp servers)
            + count_of (λ (row : McpServerTemplate). punya_server servers row.server_id) katalog_mcp
          ≡ s.mcp_total)
unfolding statistik_kesiapan id_template_provider_kurang id_template_mcp_kurang
statistik_kesiapan_lem katalog katalog_mcp akun servers telegram = (
  count-filter (λ (row : IntegrationAccount). di_katalog katalog row.provider)
      (λ (row : IntegrationAccount). row.enabled) akun,
  count-filter (λ (row : IntegrationAccount). di_katalog katalog row.provider)
      (λ (row : IntegrationAccount). row.has_secret) akun,
  count-all (λ (row : IntegrationAccount). di_katalog katalog row.provider) akun,
  count-filter (λ (row : McpIntegrationServer). di_katalog_mcp katalog_mcp row.server_id)
      (λ (row : McpIntegrationServer). row.enabled) servers,
  count-all (λ (row : McpIntegrationServer). di_katalog_mcp katalog_mcp row.server_id) servers,
  length-kurang (λ (row : IntegrationProviderTemplate). row.provider)
      (λ (row : IntegrationProviderTemplate). punya_akun akun row.provider) katalog,
  length-kurang (λ (row : McpServerTemplate). row.template_id)
      (λ (row : McpServerTemplate). punya_server servers row.server_id) katalog_mcp,
)
