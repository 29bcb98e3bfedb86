-- ===== src/Importer/Examples.antt =====
-- The import of small files: the theorem about it at concrete files, and a test.
use speakertrail.Common.{◌≡◌, refl, none, [], ◌∷◌, bytes, any_where}
use speakertrail.Importer.{
  Env, Files, Tables, import_all, import_source, import_search, import_seed, is_skipped,
  source_exists, source_row, search_row, seed_row,
}
use speakertrail.Importer.Again.{AddsNothing, import_again}

abbrev env : Env
env = record { parse = λ t. none; city_of = λ ts. bytes "Bonn"; lower = λ t. t; now = 1000 }

abbrev files : Files
files = record {
  sources =
      (bytes "name" ∷ bytes "url" ∷ bytes "status" ∷ [])
      ∷ (bytes "Club" ∷ bytes " https://c.de/ " ∷ bytes "candidate" ∷ [])
      ∷ (bytes "Fair" ∷ [])
      ∷ (bytes "Tips" ∷ bytes "" ∷ bytes "manual" ∷ [])
      ∷ [];
  searches = (bytes "query" ∷ []) ∷ (bytes "makers bonn" ∷ []) ∷ [];
  post_searches = [];
  seeds = (bytes "input" ∷ bytes "done" ∷ []) ∷ (bytes "lea" ∷ bytes "yes" ∷ []) ∷ [];
}

abbrev none_yet : Tables
none_yet = record { sources = []; seeds = [] }

-- The second source has neither an address nor one of the two statuses.
first_import :
    (import_all env files none_yet).0.sources ≡ record { added = 2; kept = 0; skipped = 1 }
unfolding import_all import_source import_search import_seed is_skipped source_exists source_row
    search_row seed_row any_where
first_import = refl

import_again_example :
    AddsNothing (record env { now = 2000 }) files (import_all env files none_yet).1
import_again_example = import_again env 2000 files none_yet
