-- ===== src/Core/Retrieval/Documents.antt =====
-- core/retrieval/normalized_docs.py: documents from the JSON of the seed files. Reading the files is
-- left out: a file gives its JSON, or nothing where it is not there.
use support_agent_platform.Shared.{
  ℕ, suc, String, ◌<>◌, ◌||◌, Option, none, some, List, [], ◌∷◌, ◌++◌, ◌==◌, ltb, if◌then◌else◌,
  contains, Value, Dict, text, arr, obj, end, entry, get, put, has, of_items,
}
use support_agent_platform.Shared.Str.{str}
use support_agent_platform.Shared.Number.{str_ℕ}
use support_agent_platform.Shared.Ratio.{Ratio}
use support_agent_platform.Shared.Text.{strip, lower}
use support_agent_platform.Storage.Models.{KbDocument}

pub record NormalizedDocument : Type 0 where
  pub doc_id : String
  pub source_type : String
  pub title : String
  pub content : String
  pub tags : List String
  pub updated_at : String
  pub metadata : Dict

abbrev pub to_kb_document : NormalizedDocument → Ratio → KbDocument
to_kb_document d score = record {
  doc_id = d.doc_id;
  source_type = d.source_type;
  title = d.title;
  content = d.content;
  tags = d.tags;
  score = score;
}

-- `_SOURCE_ALIASES`.
unfoldable pub source_alias : String → Option String
source_alias source =
    if source == "history" || source == "history_case"
    then some "history_case"
    else if source == "faq"
    then some "faq"
    else if source == "sop"
    then some "sop"
    else none

abbrev pub alias_or : String → String → String
alias_or source default = elim (source_alias source) [ none ↦ default | some s ↦ s ]

abbrev pub default_updated_at : String
default_updated_at = "1970-01-01T00:00:00+00:00"

-- `str(raw.get(key, default)).strip()`.
unfoldable pub stripped_at : String → String → Dict → String
unfolding str strip
stripped_at key default raw = elim (get key raw) [ none ↦ strip default | some v ↦ strip (str v) ]

-- `_normalize_tags`.
unfoldable pub stripped_texts : List Value → List String
unfolding str strip
stripped_texts [] = []
stripped_texts (v ∷ values) =
    let rest = stripped_texts values in if strip (str v) == "" then rest else strip (str v) ∷ rest

unfoldable pub normalize_tags : Option Value → List String
unfolding stripped_texts
normalize_tags (some (arr items)) = stripped_texts (of_items items)
normalize_tags _ = []

-- `d.setdefault(key, value)`.
abbrev pub set_default : String → Value → Dict → Dict
set_default key v d = if has key d then d else put key v d

abbrev pub schema_keys : List String
schema_keys =
    "doc_id" ∷ "source_type" ∷ "title" ∷ "content" ∷ "tags" ∷ "updated_at" ∷ "metadata" ∷ []

-- The entries whose key is none of these.
unfoldable pub without_keys : List String → Dict → Dict
without_keys keys end = end
without_keys keys (entry k v d) =
    let rest = without_keys keys d in if contains keys k then rest else entry k v rest

abbrev pub dict_or_empty : Option Value → Dict
dict_or_empty (some (obj d)) = d
dict_or_empty _ = end

-- `_normalize_metadata`: the name of the file, the source under its old name, and what else is there.
unfoldable pub normalize_metadata : String → String → Dict → Dict
unfolding source_alias without_keys
normalize_metadata file_name legacy_source raw =
    let known = set_default "source_file" (text file_name) (dict_or_empty (get "metadata" raw)) in
    let named =
      if legacy_source == "" || legacy_source == alias_or legacy_source legacy_source
      then known
      else put "legacy_source_type" (text legacy_source) known in
    let extras = without_keys schema_keys raw in
    elim extras [ end ↦ named | entry k v d ↦ set_default "extras" (obj (entry k v d)) named ]

abbrev pub or_else : String → String → String
or_else s default = if s == "" then default else s

unfoldable pub updated_at_of : Option Value → String
unfolding strip
updated_at_of (some (text s)) = or_else (strip s) default_updated_at
updated_at_of _ = default_updated_at

-- `_normalize_document`.
unfoldable pub normalize_document : String → String → String → Dict → NormalizedDocument
unfolding stripped_at lower source_alias normalize_tags normalize_metadata updated_at_of
normalize_document fallback_source file_name default_doc_id raw =
    let legacy_source = lower (stripped_at "source_type" fallback_source raw) in
    record {
      doc_id = or_else (stripped_at "doc_id" default_doc_id raw) default_doc_id;
      source_type = alias_or legacy_source fallback_source;
      title = stripped_at "title" "" raw;
      content = stripped_at "content" "" raw;
      tags = normalize_tags (get "tags" raw);
      updated_at = updated_at_of (get "updated_at" raw);
      metadata = normalize_metadata file_name legacy_source raw;
    }

-- `f"{index:04d}"`.
unfoldable pub four_digits : ℕ → String
unfolding str_ℕ
four_digits n =
    if ltb n 10
    then "000" <> str_ℕ n
    else if ltb n 100
    then "00" <> str_ℕ n
    else if ltb n 1000
    then "0" <> str_ℕ n
    else str_ℕ n

-- The loop of `_load_file`, from the index of the next item; what is no dict is left out.
unfoldable pub load_items : String → String → ℕ → List Value → List NormalizedDocument
unfolding normalize_document four_digits
load_items fallback_source file_name index [] = []
load_items fallback_source file_name index (obj raw ∷ values) =
    normalize_document fallback_source file_name (fallback_source <> "-" <> four_digits index) raw
    ∷ load_items fallback_source file_name (suc index) values
load_items fallback_source file_name index (_ ∷ values) =
    load_items fallback_source file_name (suc index) values

unfoldable pub load_file : String → String → Option Value → List NormalizedDocument
unfolding load_items
load_file fallback_source file_name (some (arr items)) =
    load_items fallback_source file_name 1 (of_items items)
load_file fallback_source file_name _ = []

-- `load_normalized_documents`, of the three files.
unfoldable pub load_normalized_documents :
    Option Value → Option Value → Option Value → List NormalizedDocument
unfolding load_file
load_normalized_documents faq sop history =
    load_file "faq" "faq_documents.json" faq
    ++ (load_file "sop" "sop_documents.json" sop
        ++ load_file "history_case" "history_documents.json" history)
