-- ===== src/Ext/Examples/Sessions.antt =====
-- Examples for ext/lib/session-sync.ts and for the dropdowns of ext/lib/snapshot.ts.
use otclick_hh.Common.{
  List, Text, [], arith, codes, false, if◌then◌else◌, is_space, none, not, refl, show_nat, some,
  starts_with, trim, trim_end, trim_start, ◌∷◌, ◌≡◌, ◌⊎◌,
}
use otclick_hh.Ext.Api.{map_get}
use otclick_hh.Ext.Auth.{AuthService, given, signed_out}
use otclick_hh.Ext.Background.{Background}
use otclick_hh.Ext.SessionSync.{
  Decoders, all_digits, chunks_from, is_auth_cookie, is_auth_rest, jar_get, parse_cookie_jar, read,
  read_raw_value, sync_session, without_index,
}
use otclick_hh.Ext.SessionSync.Jar.{cookie_text, parse_cookie_jar-cookie_text}
use otclick_hh.Ext.SessionSync.Chunks.{
  Collects, chunks_from_complete, read_raw_value-chunks, round, stop,
}
use otclick_hh.Ext.SessionSync.Twice.{adopt, sync_session_idem}
use otclick_hh.Ext.Snapshot.Observe.{SnapshotEl}
use otclick_hh.Ext.Dropdowns.{Opened, Opening, cache_key, open_all, open_one}
use otclick_hh.Ext.Dropdowns.Cache.{cached_for_good}
use otclick_hh.Ext.Examples.{Page, page, start_page}

-- A text is its own JSON, which is an object with that text under each key.
abbrev decoders : Decoders
decoders = record {
  J = Text;
  decode_uri_component = λ s. some s;
  base64_utf8 = λ s. some s;
  json_parse = λ s. some s;
  as_array = λ s. none;
  as_string = λ s. some s;
  member = λ s key. some s;
}

-- the second chunk comes first
abbrev jar : List (Text × Text)
jar =
    (codes "sb-x-auth-token.1", codes "b")
    ∷ (codes "theme", codes "dark")
    ∷ (codes "sb-x-auth-token.0", codes "a")
    ∷ []

parse_cookie_jar-cookie_text_example : parse_cookie_jar (cookie_text jar) ≡ jar
unfolding trim trim_start trim_end is_space
parse_cookie_jar-cookie_text_example =
    parse_cookie_jar-cookie_text jar (ground arith) (ground arith)

chunks_from_complete_example :
    Collects jar (codes "sb-x-auth-token") 0 (chunks_from 4 jar (codes "sb-x-auth-token") 0)
chunks_from_complete_example = chunks_from_complete jar (codes "sb-x-auth-token")

read_raw_value-chunks_example : read_raw_value decoders jar ≡ read (codes "ab")
unfolding is_auth_cookie without_index all_digits is_auth_rest starts_with jar_get show_nat
read_raw_value-chunks_example =
    read_raw_value-chunks decoders jar (codes "sb-x-auth-token.1") (codes "b") (codes "a")
      (codes "b" ∷ []) refl refl
      (round 0 (codes "a") (codes "b" ∷ []) refl (round 1 (codes "b") [] refl (stop 2 refl)))

abbrev service : AuthService
service = record {
  now = 0;
  payload = λ jwt. some none;
  set_session = λ a r. given none (some (some (codes "me@x.org")));
}

abbrev fresh : Background Text
fresh = record { stored = signed_out; tabs = []; sent = []; sessions = [] }

abbrev push : Text → Text → Background Text → Background Text
push = adopt [] [] (λ req. none) service

sync_session_idem_example :
    ((sync_session decoders push (cookie_text jar) fresh).stored ≡ fresh.stored)
    ⊎ (sync_session decoders push
          (cookie_text jar)
          (sync_session decoders push (cookie_text jar) fresh)
        ≡ sync_session decoders push (cookie_text jar) fresh)
sync_session_idem_example =
    sync_session_idem [] [] (λ req. none) service service decoders (cookie_text jar) fresh

-- a click takes ten milliseconds
abbrev opening : Opening page
opening = record {
  set_ref = λ w el ref. w;
  focus = λ w el. w;
  real_click = λ w el. record w { on = not w.on };
  press_escape = λ w. w;
  settle = λ w. w;
  mutations = λ time w. [];
  now = λ w. if w.on then 10 else 0;
}

abbrev city : SnapshotEl
city = record {
  ref = codes "e0";
  label = codes "City";
  field_type = "select";
  selector = codes "#select";
  options = [];
  required = false;
  autocomplete = none;
  placeholder = none;
  name = none;
  value = none;
  maxlength = none;
  pattern' = none;
  accept = none;
  error = none;
  section = none;
}

abbrev known : Opened Page
known = record { world = start_page; cache = (codes "#select City", codes "Almaty" ∷ []) ∷ [] }

cached_for_good_example :
    open_one page opening
      (λ w el. [])
      0
      1
      9
      city
      (open_all page opening (λ w el. []) 0 1 5 (city ∷ []) known).1
    ≡ (
      record city { options = codes "Almaty" ∷ [] },
      (open_all page opening (λ w el. []) 0 1 5 (city ∷ []) known).1,
    )
unfolding map_get cache_key
cached_for_good_example =
    cached_for_good page opening (λ w el. []) 0 1 (city ∷ []) 5 9 city (codes "Almaty") [] known
      refl refl
