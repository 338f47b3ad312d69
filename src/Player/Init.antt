-- ===== src/Player/Init.antt =====
-- src/player.cpp: the memory that a tune starts with.
use libsidplayfp.Base.{Option}
use mathlib.Core.Option as Option
use libsidplayfp.Tune.{Compatibility, Compatibility.c64, Compatibility.psid}
