-- ===== src/Settings/Providers.antt =====
-- The providers, their groups and the presets of ui/src/app/settings/page.tsx.
pub mod Groups
pub mod Prefixes
use multi_job.Prelude.{
  ℕ, ◌<◌, Bool, true, false, not, String, ◌==◌, List, [], ◌∷◌, ◌++◌, map, Option, none, some,
  filter, some_of, length, ltb, if◌then◌else◌,
}
use multi_job.Js.Text.{or_text}
use multi_job.Js.Dict.{Dict, lookup, put}

pub record BulkProviderMeta : Type 0 where
  pub provider : String
  pub label : String
  pub default_prefix : String
  pub default_base_url : String
  pub user_id_key : String
  pub user_id_label : String
  pub default_channel : String
  pub job_prefix : String

pub record BulkProviderGroupMeta : Type 0 where
  pub id : String
  pub label : String
  pub provider_ids : List String

pub record BulkRoutinePreset : Type 0 where
  pub id : String
  pub label : String
  pub post_hour : ℕ
  pub post_minute : ℕ
  pub post_stagger_minute : ℕ
  pub report_hour : ℕ
  pub report_minute : ℕ
  pub reply_interval_sec : ℕ

abbrev meta : (provider label prefix url key key_label channel job : String) → BulkProviderMeta
meta provider label prefix url key key_label channel job = record {
  provider = provider;
  label = label;
  default_prefix = prefix;
  default_base_url = url;
  user_id_key = key;
  user_id_label = key_label;
  default_channel = channel;
  job_prefix = job;
}

pub bulk_provider_meta : List BulkProviderMeta
bulk_provider_meta =
    meta "instagram_graph" "Instagram" "ig_" "https://graph.facebook.com/v20.0" "instagram_user_id"
      "Instagram User ID" "instagram" "ig"
    ∷ meta "facebook_graph" "Facebook" "fb_" "https://graph.facebook.com/v20.0" "facebook_page_id"
        "Facebook Page ID" "facebook" "fb"
    ∷ meta "tiktok_open" "TikTok" "tt_" "https://open.tiktokapis.com/v2" "tiktok_open_id"
        "TikTok Account ID" "tiktok" "tt"
    ∷ meta "x_twitter" "Twitter / X" "x_" "https://api.x.com/2" "x_account_id" "X Account ID" "x"
        "x"
    ∷ meta "shopee" "Shopee" "sp_" "https://partner.shopeemobile.com" "shop_id" "Shop ID" "shopee"
        "sp"
    ∷ meta "tokopedia" "Tokopedia" "tp_" "https://fs.tokopedia.net" "shop_id" "Shop ID" "tokopedia"
        "tp"
    ∷ meta "tiktok_shop" "TikTok Shop" "tts_" "https://open-api.tiktokglobalshop.com" "shop_id"
        "Shop ID" "tiktok_shop" "tts"
    ∷ meta "lazada" "Lazada" "lz_" "https://api.lazada.co.id/rest" "shop_id" "Shop ID" "lazada" "lz"
    ∷ meta "youtube_data" "YouTube" "yt_" "https://www.googleapis.com/youtube/v3" "channel_id"
        "Channel ID" "youtube" "yt"
    ∷ meta "linkedin" "LinkedIn" "li_" "https://api.linkedin.com/v2" "organization_id"
        "Organization ID" "linkedin" "li"
    ∷ meta "threads_graph" "Threads" "th_" "https://graph.facebook.com/v20.0" "threads_user_id"
        "Threads User ID" "threads" "th"
    ∷ meta "pinterest" "Pinterest" "pt_" "https://api.pinterest.com/v5" "board_id" "Board ID"
        "pinterest" "pt"
    ∷ meta "reddit" "Reddit" "rd_" "https://oauth.reddit.com" "subreddit" "Subreddit" "reddit" "rd"
    ∷ meta "google_business_profile" "Google Business Profile" "gbp_"
        "https://mybusinessbusinessinformation.googleapis.com/v1" "location_name" "Location Name"
        "google_business" "gbp"
    ∷ meta "line_official_account" "LINE Official Account" "line_" "https://api.line.me/v2/bot"
        "line_user_id" "LINE User ID" "line" "line"
    ∷ meta "whatsapp_api" "WhatsApp API" "wa_" "https://graph.facebook.com/v20.0" "phone_number_id"
        "Phone Number ID" "whatsapp" "wa"
    ∷ meta "telegram_api" "Telegram API" "tg_" "https://api.telegram.org" "chat_id" "Chat ID"
        "telegram" "tg"
    ∷ meta "slack" "Slack" "sl_" "https://slack.com/api" "channel_id" "Channel ID" "slack" "sl"
    ∷ meta "discord" "Discord" "dc_" "https://discord.com/api/v10" "channel_id" "Channel ID"
        "discord" "dc"
    ∷ []

pub bulk_provider_group_meta : List BulkProviderGroupMeta
bulk_provider_group_meta =
    record {
      id = "social_media";
      label = "Social Media";
      provider_ids =
          "instagram_graph" ∷ "facebook_graph" ∷ "tiktok_open" ∷ "x_twitter" ∷ "youtube_data"
          ∷ "linkedin" ∷ "threads_graph" ∷ "pinterest" ∷ "reddit" ∷ [];
    }
    ∷ record {
      id = "marketplace";
      label = "Marketplace";
      provider_ids = "shopee" ∷ "tokopedia" ∷ "tiktok_shop" ∷ "lazada" ∷ [];
    }
    ∷ record {
      id = "local_business";
      label = "Local Business";
      provider_ids = "google_business_profile" ∷ [];
    }
    ∷ record {
      id = "messaging";
      label = "Messaging";
      provider_ids =
          "whatsapp_api" ∷ "telegram_api" ∷ "slack" ∷ "discord" ∷ "line_official_account" ∷ [];
    }
    ∷ []

abbrev pub bulk_routine_presets : List BulkRoutinePreset
bulk_routine_presets =
    record {
      id = "harian_0800";
      label = "Harian 08:00";
      post_hour = 8;
      post_minute = 0;
      post_stagger_minute = 2;
      report_hour = 21;
      report_minute = 0;
      reply_interval_sec = 60;
    }
    ∷ record {
      id = "padat_0700";
      label = "Padat 07:00";
      post_hour = 7;
      post_minute = 0;
      post_stagger_minute = 1;
      report_hour = 22;
      report_minute = 0;
      reply_interval_sec = 30;
    }
    ∷ record {
      id = "hemat_1000";
      label = "Hemat 10:00";
      post_hour = 10;
      post_minute = 0;
      post_stagger_minute = 5;
      report_hour = 20;
      report_minute = 30;
      reply_interval_sec = 120;
    }
    ∷ []

-- `new Map(rows.map((row) => [row.provider, row]))`
pub by_id : List BulkProviderMeta → Dict BulkProviderMeta → Dict BulkProviderMeta
by_id [] peta = peta
by_id (row ∷ rows) peta = by_id rows (put row.provider row peta)

-- `AMBIL_META_PROVIDER_BULK`
unfoldable pub ambil_meta_provider_bulk : String → BulkProviderMeta
unfolding by_id bulk_provider_meta
ambil_meta_provider_bulk provider = elim (lookup provider (by_id bulk_provider_meta [])) [
  | some row ↦ row
  | none ↦
      meta provider (or_text provider "Provider") "acc_" "" "external_user_id" "External User ID"
        (or_text provider "generic") "acc"
]

pub record GrupProvider : Type 0 where
  pub id : String
  pub label : String
  pub rows : List BulkProviderMeta

-- The rows that the map has for the identifiers.
pub baris_grup : Dict BulkProviderMeta → List String → List BulkProviderMeta
baris_grup peta [] = []
baris_grup peta (provider_id ∷ ids) = elim (lookup provider_id peta) [
  | some row ↦ row ∷ baris_grup peta ids
  | none ↦ baris_grup peta ids
]

abbrev pub punya_provider : String → List BulkProviderMeta → Bool
punya_provider provider rows = some_of (λ row. row.provider == provider) rows

-- `knownProviderIds.has(provider)`
abbrev pub dikenal : String → List GrupProvider → Bool
dikenal provider groups = some_of (λ group. punya_provider provider group.rows) groups

abbrev grup_dikenal : Dict BulkProviderMeta → List BulkProviderGroupMeta → List GrupProvider
grup_dikenal peta groups =
    filter (λ group. ltb 0 (length group.rows))
      (map
        (λ group. record {
          id = group.id;
          label = group.label;
          rows = baris_grup peta group.provider_ids;
        })
        groups)

-- `grupProviderBulk`, for the rows and the groups.
pub grup_provider_bulk : List BulkProviderMeta → List BulkProviderGroupMeta → List GrupProvider
unfolding by_id baris_grup
grup_provider_bulk rows group_meta =
    let groups = grup_dikenal (by_id rows []) group_meta in
    let provider_lainnya = filter (λ row. not (dikenal row.provider groups)) rows in
    if ltb 0 (length provider_lainnya)
    then groups ++ record { id = "lainnya"; label = "Lainnya"; rows = provider_lainnya } ∷ []
    else groups
