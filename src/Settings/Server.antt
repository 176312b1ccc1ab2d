-- ===== src/Settings/Server.antt =====
-- initZkConfigByServer of config/utils.go: the environment from a server.
use dove.Base.{
  ℕ, not, Option, none, some, [], ◌∷◌, ◌++◌, nat_beq, if◌then◌else◌, ◌==◌, Bytes, codes, nat_eq,
  bytes_eq, Result, ◌>>=◌, ok, err,
}
use dove.Base.Decimal.{itoa}
use dove.Base.Text.{trim_right, to_lower}
use dove.Encrypt.{BlockMode, decrypt}
use dove.Projconfig.Base64.{base64_decode}

pub record EnvInfo : Type 0 where
  pub hosts : Bytes
  pub key : Bytes
  pub iv : Bytes

-- How `http.Get` ends, and the reading of the body behind it.
pub data Reply : Type 0 where
  no_reply no_body : Reply
  body : Bytes → Reply

-- What is called and is not of this repository, or is of the environment.
pub record Remote : Type 0 where
  pub local_ip : Bytes
  pub now : ℕ
  pub md5_hex : Bytes → Bytes
  pub http_get : Bytes → Reply
  pub decode_answer : Bytes → Option (Bytes × Bytes × Bytes)
  pub decode_env : Bytes → Option EnvInfo
  pub mode : BlockMode

without_dashes : Bytes → Bytes
without_dashes [] = []
without_dashes (c ∷ s) = if nat_beq c b'-' then without_dashes s else c ∷ without_dashes s

unfoldable pub env_url : Remote → Bytes → Bytes → Bytes → Bytes
unfolding without_dashes
env_url r dove_server env auth_key =
    let e = to_lower (without_dashes env) in
    let timestamp = itoa r.now in
    trim_right dove_server (codes "/")
    ++ (codes "/Api/Env?env="
        ++ (e
            ++ (codes "&timestamp="
                ++ (timestamp
                    ++ (codes "&sign="
                        ++ (r.md5_hex (r.local_ip ++ (e ++ (timestamp ++ auth_key)))
                            ++ (codes "&ip=" ++ r.local_ip)))))))

pub data ServerError : Type 0 where
  panics refused : ServerError

decrypted : Remote → Bytes → Bytes → Bytes → Result ServerError Bytes
decrypted r auth_iv auth_key text =
    elim (decrypt r.mode (record { iv = auth_iv; key = auth_key }) text) [
      | err dove.Encrypt.bad_key ↦ err refused
      | err dove.Encrypt.panics ↦ err panics
      | ok plain ↦ ok plain
    ]

-- The status, the text in Base64 and the message of an answer. A vector that is not in the settings
-- is a panic once it is used.
decoded_env : Remote → Option Bytes → Bytes → Bytes × Bytes × Bytes → Result ServerError EnvInfo
unfolding decrypted
decoded_env r auth_iv auth_key (status, answer, message) =
    if not (status == codes "ok") then err refused else elim (base64_decode answer) [
      | none ↦ err refused
      | some text ↦ elim auth_iv [
        | none ↦ err panics
        | some iv ↦ decrypted r iv auth_key text >>= λ plain. elim (r.decode_env plain) [
          | none ↦ err refused
          | some e ↦ ok e
        ]
      ]
    ]

-- The body of the reply is used by `defer` before its error is looked at: no reply is a panic.
unfoldable pub init_zk_config_by_server :
    Remote → Bytes → Bytes → Option Bytes → Bytes → Result ServerError EnvInfo
unfolding decoded_env
init_zk_config_by_server r dove_server env auth_iv auth_key =
    if dove_server == []
    then err refused
    else elim (r.http_get (env_url r dove_server env auth_key)) [
      | no_reply ↦ err panics
      | no_body ↦ err refused
      | body response ↦ elim (r.decode_answer response) [
        | none ↦ err refused
        | some answer ↦ decoded_env r auth_iv auth_key answer
      ]
    ]
