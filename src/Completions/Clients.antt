-- ===== src/Completions/Clients.antt =====
-- `_client_ip` of src/flux/server/routes_openai.py: the name under which a client is counted.
use Prim.Native.Char.{code}
use Prim.Native.String.{String}
use flux_llm_inference_engin.Prelude.{
  Option, none, some, nat_beq, is_space, if◌then◌else◌, string_eq,
}

-- What `_client_ip` reads of a request.
pub record Client : Type 0 where
  pub forwarded : Option String
  pub host : Option String

abbrev pub before_comma : String → String
before_comma String.[] = String.[]
before_comma (String.◌∷◌ c s) =
    let rest = before_comma s in if nat_beq (code c) 44 then String.[] else String.◌∷◌ c rest

abbrev lstrip_string : String → String
lstrip_string String.[] = String.[]
lstrip_string (String.◌∷◌ c s) = if is_space (code c) then lstrip_string s else String.◌∷◌ c s

abbrev rstrip_string : String → String
rstrip_string String.[] = String.[]
rstrip_string (String.◌∷◌ c s) = keep_char (rstrip_string s)
  where
    keep_char : String → String
    keep_char String.[] = if is_space (code c) then String.[] else String.◌∷◌ c String.[]
    keep_char (String.◌∷◌ d rest) = String.◌∷◌ c (String.◌∷◌ d rest)

abbrev host_or_unknown : Option String → String
host_or_unknown none = "unknown"
host_or_unknown (some host) = host

abbrev forwarded_or : String → Option String → String
forwarded_or host none = host
forwarded_or host (some String.[]) = host
forwarded_or host (some (String.◌∷◌ c s)) =
    rstrip_string (lstrip_string (before_comma (String.◌∷◌ c s)))

-- `_client_ip`
unfoldable pub client_ip : Client → String
client_ip client = forwarded_or (host_or_unknown client.host) client.forwarded
