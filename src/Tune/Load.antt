-- ===== src/Tune/Load.antt =====
-- src/sidtune/SidTuneBase.cpp: `getFromBuffer`. The files of src/sidtune/p00.cpp and prg.cpp are
-- tried by `getFromFiles` only.
pub mod Playable
use libsidplayfp.Base.{
  ℕ, ◌+◌, Bool, true, false, Option, none, some, List, [], ◌∷◌, length, if◌then◌else◌, ◌==◌, ltb,
}
use libsidplayfp.Tune.{SidTuneBase}
use libsidplayfp.Tune.Accept as Accept
use libsidplayfp.Tune.Accept.{accept_sid_tune}
use libsidplayfp.Tune.Mus as Mus
use libsidplayfp.Tune.Mus.{Mus, set_player_address}
use libsidplayfp.Tune.Psid as Psid
use libsidplayfp.Tune.Psid.{PsidHeader}
use libsidplayfp.Tune.Result.{
  Load, loaded, failed, LoadError.empty, LoadError.file_too_long, LoadError.unrecognized_format,
  ◌>>=◌, ◌>>◌,
}

-- `MAX_FILELEN`
abbrev pub max_filelen : ℕ
max_filelen = 65536 + 2 + 0x7c

-- A tune of either class
pub data AnyTune : Type 0 where
  psid_tune : SidTuneBase → AnyTune
  mus_tune : Mus → AnyTune

abbrev pub base : AnyTune → SidTuneBase
base (psid_tune t) = t
base (mus_tune m) = m.tune

-- The names that a buffer has
abbrev pub no_name : Option (List ℕ)
no_name = some (b'-' ∷ [])

-- `acceptSidTune` of the two classes
unfoldable pub accept_psid : (is_separator : ℕ → Bool) → List ℕ → SidTuneBase → Load AnyTune
unfolding accept_sid_tune
accept_psid is_separator buf t =
    accept_sid_tune is_separator no_name no_name buf false t >>= λ (u : SidTuneBase).
    loaded (psid_tune u)

unfoldable pub accept_mus : (is_separator : ℕ → Bool) → List ℕ → Mus → Load AnyTune
unfolding accept_sid_tune set_player_address
accept_mus is_separator buf m =
    accept_sid_tune is_separator no_name no_name buf false (set_player_address m.tune)
    >>= λ (u : SidTuneBase). loaded (mus_tune (record m { tune = u }))

unfoldable pub try_mus : (is_separator : ℕ → Bool) → Option (Mus × List ℕ) → Load AnyTune
unfolding accept_mus
try_mus is_separator none = failed unrecognized_format
try_mus is_separator (some (m, buf)) = accept_mus is_separator buf m

-- The formats one after the other
unfoldable pub try_formats :
    (player_addr : ℕ) (is_separator : ℕ → Bool) → List ℕ → Option SidTuneBase → Load AnyTune
unfolding accept_psid try_mus Mus.load
try_formats player_addr is_separator buf (some t) = accept_psid is_separator buf t
try_formats player_addr is_separator buf none = Mus.load player_addr buf [] >>= try_mus is_separator

-- `getFromBuffer`, with the header `hdr` that the stack held; none is a null pointer.
unfoldable pub get_from_buffer :
    (player_addr : ℕ) (is_separator : ℕ → Bool) → PsidHeader → Option (List ℕ) → Load AnyTune
unfolding Psid.load try_formats
get_from_buffer player_addr is_separator hdr none = failed empty
get_from_buffer player_addr is_separator hdr (some buf) =
    if length buf == 0
    then failed empty
    else if ltb max_filelen (length buf)
    then failed file_too_long
    else Psid.load buf hdr >>= try_formats player_addr is_separator buf
