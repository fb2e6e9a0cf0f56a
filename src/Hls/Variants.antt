-- ===== src/Hls/Variants.antt =====
-- `MasterPlaylist` and its variants, of pkg/streaming/hls/playlist.go and types.go. Bit rates are
-- numbers of bits and the frame rate is in thousandths; `strings.Split` is a parameter.
use zenlive.Common.{
  ℕ, zero, suc, String, ◌+◌, ◌-◌, List, [], ◌∷◌, ◌++◌, Option, none, some, ltb, ◌==◌, if◌then◌else◌,
  length, ite, string_discrete,
}
use zenlive.Hls.Playlist.{or_else}

pub record Variant : Type 0 where
  pub bandwidth : ℕ
  pub average_bandwidth : ℕ
  pub codecs : String
  pub resolution : String
  pub frame_rate : ℕ
  pub uri : String
  pub name : String
  pub width : ℕ
  pub height : ℕ
  pub video_bitrate : ℕ
  pub audio_bitrate : ℕ

pub record MasterPlaylist : Type 0 where
  pub version : ℕ
  pub variants : List Variant
  pub created_at : ℕ

unfoldable pub new_master_playlist : ℕ → MasterPlaylist
new_master_playlist now = record { version = 3; variants = []; created_at = now }

unfoldable pub add_variant : Variant → MasterPlaylist → MasterPlaylist
add_variant v m = record m { variants = m.variants ++ v ∷ [] }

-- The first variant with the name is left out.
unfoldable pub without_named : String → List Variant → List Variant
without_named name [] = []
without_named name (v ∷ variants) =
    ite (string_discrete v.name name) variants (v ∷ without_named name variants)

unfoldable pub remove_variant : String → MasterPlaylist → MasterPlaylist
remove_variant name m = record m { variants = without_named name m.variants }

unfoldable pub first_named : String → List Variant → Option Variant
first_named name [] = none
first_named name (v ∷ variants) =
    ite (string_discrete v.name name) (some v) (first_named name variants)

unfoldable pub get_variant : String → MasterPlaylist → Option Variant
get_variant name m = first_named name m.variants

-- The inner loop, for the first `n` neighbours: the pair that starts at each index is swapped if
-- its second has more bandwidth.
unfoldable pub bubble : ℕ → List Variant → List Variant
bubble zero variants = variants
bubble (suc n) [] = []
bubble (suc n) (x ∷ []) = x ∷ []
bubble (suc n) (x ∷ y ∷ variants) =
    (if ltb x.bandwidth y.bandwidth then y else x)
    ∷ bubble n ((if ltb x.bandwidth y.bandwidth then x else y) ∷ variants)

-- The outer loop, with `n` neighbours to look at in its next round.
unfoldable pub bubble_rounds : ℕ → List Variant → List Variant
bubble_rounds zero variants = variants
bubble_rounds (suc n) variants = bubble_rounds n (bubble (suc n) variants)

unfoldable pub sort_variants_by_bandwidth : MasterPlaylist → MasterPlaylist
sort_variants_by_bandwidth m = record m {
  variants = bubble_rounds (length m.variants - 1) m.variants;
}

pub data MasterError : Type 0 where
  no_variants : MasterError
  invalid_bandwidth : ℕ → MasterError
  empty_uri : ℕ → MasterError
  invalid_resolution : ℕ → MasterError

module _ (split : String → String → List String) where
  unfoldable pub variant_error : ℕ → Variant → Option MasterError
  variant_error i v =
      if v.bandwidth == 0
      then some (invalid_bandwidth i)
      else ite (string_discrete v.uri "") (some (empty_uri i)) (
          ite (string_discrete v.resolution "") none
            (if length (split v.resolution "x") == 2 then none else some (invalid_resolution i)))

  unfoldable pub first_variant_error : ℕ → List Variant → Option MasterError
  first_variant_error i [] = none
  first_variant_error i (v ∷ variants) =
      or_else (variant_error i v) (first_variant_error (i + 1) variants)

  unfoldable pub validate_master_playlist : MasterPlaylist → Option MasterError
  validate_master_playlist m =
      if length m.variants == 0 then some no_variants else first_variant_error 0 m.variants

-- `CreateDefaultVariants()`
unfoldable pub create_default_variants : List Variant
create_default_variants =
    record {
      name = "1080p";
      bandwidth = 5_000_000;
      average_bandwidth = 4_500_000;
      codecs = "avc1.640028,mp4a.40.2";
      resolution = "1920x1080";
      frame_rate = 30_000;
      width = 1920;
      height = 1080;
      video_bitrate = 4_500_000;
      audio_bitrate = 192_000;
      uri = "playlist_1080p.m3u8";
    }
    ∷ record {
      name = "720p";
      bandwidth = 2_800_000;
      average_bandwidth = 2_500_000;
      codecs = "avc1.64001f,mp4a.40.2";
      resolution = "1280x720";
      frame_rate = 30_000;
      width = 1280;
      height = 720;
      video_bitrate = 2_400_000;
      audio_bitrate = 128_000;
      uri = "playlist_720p.m3u8";
    }
    ∷ record {
      name = "480p";
      bandwidth = 1_400_000;
      average_bandwidth = 1_200_000;
      codecs = "avc1.64001e,mp4a.40.2";
      resolution = "854x480";
      frame_rate = 30_000;
      width = 854;
      height = 480;
      video_bitrate = 1_100_000;
      audio_bitrate = 128_000;
      uri = "playlist_480p.m3u8";
    }
    ∷ record {
      name = "360p";
      bandwidth = 800_000;
      average_bandwidth = 700_000;
      codecs = "avc1.64001e,mp4a.40.2";
      resolution = "640x360";
      frame_rate = 30_000;
      width = 640;
      height = 360;
      video_bitrate = 600_000;
      audio_bitrate = 96_000;
      uri = "playlist_360p.m3u8";
    }
    ∷ []
