-- ===== src/Projconfig/Local/RoundTrip.antt =====
-- What is saved to the local disk is read back: projconfig/projconfig.go over encrypt/encrypt.go and
-- storage/leveldb/leveldb.go.
use dove.Base.{
  ◌≡◌, refl, sym, ap, ◌∙◌, inl, inr, true, some, append-nil, arith, if◌then◌else◌, Bool-cases,
  length, Bytes, nat_eq, bytes_eq, beq_refl, ◌>>=◌, ok,
}
use dove.Base.Dict.{lookup, insert, lookup-insert}
use dove.Storage.Disk.{Disk}
use dove.Storage.Disk.Laws.{IsReady, get-ready, put-ready, get_db-known}
use dove.Encrypt.{IsBlockMode, encrypt, decrypt, padded_text}
use dove.Encrypt.RoundTrip.{EndsFull, decrypt-encrypt}
use dove.Projconfig.Local.{
  Env, Values, get_from_disk, save_to_disk, get_local_storage, content_to_store, crypt_result,
  store_disk,
}

-- The database is open, with its lock free.
pub record IsOpened (v : Values) (d : Disk) : Type 0 where
  pub initialized_lem : v.handle.initialized ≡ true
  pub db_lem : v.handle.db ≡ some d
  pub ready : IsReady d

get_local_storage-opened : (v : Values) (d : Disk) → IsOpened v d → get_local_storage v ≡ (ok d, v)
get_local_storage-opened v d o =
    ground (arith, o.initialized_lem, get_db-known v.stored v.opens v.handle d o.db_lem)

save_to_disk-opened :
    (env : Env) (name content bytes : Bytes) (v : Values) (d : Disk)
    → IsOpened v d
    → content_to_store env content ≡ ok bytes
    → save_to_disk env name content v
      ≡ (ok tt, store_disk (record d { entries = insert name bytes d.entries }) v)
unfolding save_to_disk
save_to_disk-opened env name content bytes v d o e =
    ground (arith, e, get_local_storage-opened v d o, put-ready name bytes d o.ready)

get_from_disk-opened :
    (env : Env) (name bytes : Bytes) (v : Values) (d : Disk)
    → IsOpened v d
    → lookup name d.entries ≡ some bytes
    → (get_from_disk env name v).0 ≡ (
        if env.encrypt_enable
        then crypt_result (decrypt env.mode env.encryptor bytes)
        else ok bytes)
unfolding get_from_disk
get_from_disk-opened env name bytes v d o e =
    ground (arith, e, get_local_storage-opened v d o, get-ready name d o.ready)

encrypt-defined :
    (env : Env) (content : Bytes)
    → env.mode.accepts env.encryptor.key ≡ true
    → length env.encryptor.iv ≡ 8
    → (bytes : Bytes) × (encrypt env.mode env.encryptor content ≡ ok bytes)
unfolding encrypt
encrypt-defined env content a l = (
  env.mode.crypt_blocks env.encryptor.key env.encryptor.iv (padded_text content),
  ground (arith, a, l),
)

stored-read :
    (env : Env) (content : Bytes)
    → IsBlockMode env.mode
    → env.mode.accepts env.encryptor.key ≡ true
    → length env.encryptor.iv ≡ 8
    → EndsFull content
    → (bytes : Bytes) × (content_to_store env content ≡ ok bytes)
      × ((if env.encrypt_enable
            then crypt_result (decrypt env.mode env.encryptor bytes)
            else ok bytes)
          ≡ ok content)
stored-read env content law a l f = elim (Bool-cases env.encrypt_enable) [
  | inl e ↦
      let (bytes, p) = encrypt-defined env content a l in
      let back : decrypt env.mode env.encryptor bytes ≡ ok content =
        ap (λ r. r >>= decrypt env.mode env.encryptor)
          (sym p ∙ ap (encrypt env.mode env.encryptor) (sym (append-nil content)))
        ∙ decrypt-encrypt env.mode env.encryptor content 0 law a l f in
      rw e (bytes, p, ap crypt_result back)
  | inr e ↦ rw e (content, refl, refl)
]

-- A content that does not end in a zero byte is saved to an open database, and is what is then read
-- from it, encrypted or not, with a key that the cipher accepts and an initial vector of 8 bytes.
pub get_from_disk-save_to_disk :
    (env : Env) (name content : Bytes) (v : Values) (d : Disk)
    → IsOpened v d
    → IsBlockMode env.mode
    → env.mode.accepts env.encryptor.key ≡ true
    → length env.encryptor.iv ≡ 8
    → EndsFull content
    → ((save_to_disk env name content v).0 ≡ ok tt)
      × ((get_from_disk env name (save_to_disk env name content v).1).0 ≡ ok content)
get_from_disk-save_to_disk env name content v d o law a l f =
    let (bytes, p, back) = stored-read env content law a l f in
    let d' : Disk = record d { entries = insert name bytes d.entries } in
    let there : lookup name d'.entries ≡ some bytes =
      lookup-insert name name bytes d.entries
      ∙ ap (λ b. if b then some bytes else lookup name d.entries) (beq_refl name) in
    rw (save_to_disk-opened env name content bytes v d o p) (
      refl,
      get_from_disk-opened env name bytes (store_disk d' v) d'
            (record {
              initialized_lem = o.initialized_lem;
              db_lem = refl;
              ready = record { open_lem = o.ready.open_lem; free_lem = o.ready.free_lem };
            })
            there
          ∙ back,
    )
