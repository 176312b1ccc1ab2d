-- ===== src/Projconfig/Server.antt =====
-- Values on the configuration server: `GetFromServer` of projconfig/projconfig.go.
use dove.Base.{
  ℕ, Bool, true, false, not, none, some, [], nat_beq, if◌then◌else◌, Bytes, nat_eq, bytes_eq,
  Result, ◌>>=◌, ok, err,
}
use dove.Encrypt.{decrypt}
use dove.Projconfig.Base64.{base64_decode}
use dove.Projconfig.Local.{
  Env, ValueError, no_engine, not_on_server, undecodable, unpublished, wrong_version, bad_base64,
  broken_content, panics, crypt_result,
}

-- A field of the decoded JSON; a number is a whole one.
pub data Field : Type 0 where
  absent : Field
  number : ℕ → Field
  text : Bytes → Field
  other : Field

pub record Metadata : Type 0 where
  pub encrypted : Field
  pub state : Field
  pub encrypt_ver : Field

-- What the server answers: no connection, no content, content that is no JSON, JSON whose "metadata"
-- is no object, or a configuration.
pub data Reply : Type 0 where
  no_connection no_content no_json no_metadata : Reply
  configuration : Metadata → Field → Reply

-- `int(v.(float64))`; any other type panics.
abbrev pub as_int : Field → Result ValueError ℕ
as_int (number n) = ok n
as_int _ = err panics

-- An old version has no encryption.
abbrev pub encrypted_flag : Field → Result ValueError ℕ
encrypted_flag absent = ok 0
encrypted_flag f = as_int f

-- `metadata["encrypt_ver"] != nil && ENCRYPT_VER != metadata["encrypt_ver"]`
abbrev pub version_differs : ℕ → Field → Bool
version_differs ver absent = false
version_differs ver (number n) = not (nat_beq ver n)
version_differs ver _ = true

abbrev pub decoded_content : Env → Field → Result ValueError Bytes
decoded_content env (text s) = elim (base64_decode s) [
  | none ↦ err bad_base64
  | some re ↦ crypt_result (decrypt env.mode env.encryptor re)
]
decoded_content env _ = err panics

abbrev pub plain_content : Field → Result ValueError Bytes
plain_content absent = ok []
plain_content (text s) = ok s
plain_content _ = err broken_content

unfoldable pub content_of_configuration : Env → Metadata → Field → Result ValueError Bytes
content_of_configuration env metadata content = encrypted_flag metadata.encrypted >>= λ encrypted.
    as_int metadata.state >>= λ state.
    if not (nat_beq state 1)
    then err unpublished
    else if nat_beq encrypted 1
    then (if version_differs env.encrypt_ver metadata.encrypt_ver
        then err wrong_version
        else decoded_content env content)
    else plain_content content

unfoldable pub get_from_server : Env → Reply → Result ValueError Bytes
unfolding content_of_configuration
get_from_server env no_connection = err no_engine
get_from_server env no_content = err not_on_server
get_from_server env no_json = err undecodable
get_from_server env no_metadata = err panics
get_from_server env (configuration metadata content) = content_of_configuration env metadata content
