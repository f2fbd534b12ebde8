-- ===== src/Wal/Record.antt =====
-- `WalHeader` and `WalRecord` (include/AkatsukiDB/WAL/WalManager.hpp): the packed 60-byte header as
-- it lies in the file, little-endian, and its reading back.
use akatsuki_db.Base.{
  false, take_of_length-le, ℕ, zero, suc, refl, inl, inr, Bool-cases, ◌-◌, ◌^◌, ◌<◌, ◌≡◌, sym, ap,
  ◌∙◌, [], ◌∷◌, ◌++◌, Bytes, length, take, replicate, read_at, le_bytes, of_le, ℤ, bits_of, signed,
  IsInt, ◌==◌, if◌then◌else◌, arith, of_le-le_bytes4, bits_of32-lt, signed-bits_of32, take-length,
  length-append, length-replicate, length-take,
}

abbrev pub wal_magic : ℕ
wal_magic = 0x4F4D4152

pub data WalType : Type 0 where
  begin insert update delete commit rollback : WalType

-- The enumerators' values.
abbrev pub type_code : WalType → ℕ
type_code begin = 1
type_code insert = 2
type_code update = 3
type_code delete = 4
type_code commit = 5
type_code rollback = 6

-- `type` is the byte that lies in the file, which need not be one of the six; `pad` is the three
-- padding bytes as one number.
pub record WalHeader : Type 0 where
  pub magic : ℕ
  pub lsn : ℕ
  pub txn_id : ℕ
  pub type : ℕ
  pub pad : ℕ
  pub page_id : ℤ
  pub slot_index : ℤ
  pub row_data_size : ℕ
  pub table_name : Bytes

pub record WalRecord : Type 0 where
  pub header : WalHeader
  pub row_data : Bytes

-- `sizeof(WalHeader)`, packed
abbrev pub header_size : ℕ
header_size = 60

abbrev pub name_size : ℕ
name_size = 32

-- The bytes of the struct, field after field.
unfoldable pub header_bytes : WalHeader → Bytes
unfolding le_bytes
header_bytes h =
    le_bytes 4 h.magic
    ++ (le_bytes 4 h.lsn
        ++ (le_bytes 4 h.txn_id
            ++ (le_bytes 1 h.type
                ++ (le_bytes 3 h.pad
                    ++ (le_bytes 4 (bits_of 32 h.page_id)
                        ++ (le_bytes 4 (bits_of 32 h.slot_index)
                            ++ (le_bytes 4 h.row_data_size ++ h.table_name)))))))

-- A struct read from its bytes.
unfoldable pub header_of : Bytes → WalHeader
unfolding read_at of_le
header_of bs = record {
  magic = of_le (read_at 0 4 bs);
  lsn = of_le (read_at 4 4 bs);
  txn_id = of_le (read_at 8 4 bs);
  type = of_le (read_at 12 1 bs);
  pad = of_le (read_at 13 3 bs);
  page_id = signed 32 (of_le (read_at 16 4 bs));
  slot_index = signed 32 (of_le (read_at 20 4 bs));
  row_data_size = of_le (read_at 24 4 bs);
  table_name = read_at 28 name_size bs;
}

-- A C string ends at its first zero byte.
unfoldable pub c_str : Bytes → Bytes
c_str [] = []
c_str (b ∷ bs) = if b == 0 then [] else b ∷ c_str bs

-- `memset` to 0, then `strncpy` of at most 31 bytes.
unfoldable pub name_field : Bytes → Bytes
unfolding c_str
name_field name =
    let kept = take (name_size - 1) (c_str name) in kept ++ replicate (name_size - length kept) 0

-- The values fit the struct's fields.
pub record Fits (h : WalHeader) : Type 0 where
  pub magic : h.magic ≡ wal_magic
  pub lsn : h.lsn < 2 ^ 32
  pub txn_id : h.txn_id < 2 ^ 32
  pub type : h.type < 256
  pub pad : h.pad ≡ 0
  pub page_id : IsInt h.page_id
  pub slot_index : IsInt h.slot_index
  pub row_data_size : h.row_data_size < 2 ^ 32
  pub table_name : length h.table_name ≡ name_size

pub length-name_field : (name : Bytes) → length (name_field name) ≡ name_size
unfolding name_field
length-name_field name = omega (
  arith,
  length-append {0} {A = ℕ},
  length-replicate {0} {A = ℕ},
  length-take (name_size - 1) (c_str name),
)

pub length-header_bytes : (h : WalHeader) → Fits h → length (header_bytes h) ≡ header_size
unfolding header_bytes
length-header_bytes h f = omega (arith, f.table_name)

take-name : (xs ys : Bytes) → length xs ≡ name_size → take name_size (xs ++ ys) ≡ xs
take-name xs ys e = ap (λ k. take k (xs ++ ys)) (sym e) ∙ take-length xs ys

-- A struct read back from the bytes that it was written as, with anything behind them.
pub header_of-header_bytes :
    (h : WalHeader) (rest : Bytes) → Fits h → header_of (header_bytes h ++ rest) ≡ h
unfolding header_of header_bytes
header_of-header_bytes h rest f = λ i. record {
  magic = of_le-le_bytes4 h.magic (rw f.magic (omega arith)) i;
  lsn = of_le-le_bytes4 h.lsn f.lsn i;
  txn_id = of_le-le_bytes4 h.txn_id f.txn_id i;
  type = small h.type f.type i;
  pad = zeros h.pad f.pad i;
  page_id =
      (ap (signed 32) (of_le-le_bytes4 (bits_of 32 h.page_id) (bits_of32-lt h.page_id))
          ∙ signed-bits_of32 h.page_id f.page_id)
        i;
  slot_index =
      (ap (signed 32) (of_le-le_bytes4 (bits_of 32 h.slot_index) (bits_of32-lt h.slot_index))
          ∙ signed-bits_of32 h.slot_index f.slot_index)
        i;
  row_data_size = of_le-le_bytes4 h.row_data_size f.row_data_size i;
  table_name = take-name h.table_name rest f.table_name i;
}
  where
    small : (t : ℕ) → t < 256 → of_le (le_bytes 1 t) ≡ t
    small t h = omega arith

    zeros : (t : ℕ) → t ≡ 0 → of_le (le_bytes 3 t) ≡ t
    zeros t h = omega arith

c_str-take :
    (n k : ℕ) (bs : Bytes) → 0 < k → c_str (take n (c_str bs) ++ replicate k 0) ≡ take n (c_str bs)
unfolding c_str
c_str-take n zero bs h = absurd (omega arith)
c_str-take zero (suc k) bs h = refl
c_str-take (suc n) (suc k) [] h = refl
c_str-take (suc n) (suc k) (b ∷ bs) h = elim (Bool-cases (b == 0)) [
  | inl e ↦ rw e refl
  | inr e ↦ rw e (rw e (ap (◌∷◌ b) (c_str-take n (suc k) bs h)))
]

-- A table's name that the field holds whole: at most 31 bytes, none of them zero.
abbrev pub HasNoZero : Bytes → Type 0
HasNoZero [] = Unit {0}
HasNoZero (b ∷ bs) = (0 < b) × HasNoZero bs

abbrev pub IsName : Bytes → Type 0
IsName name = (length name < name_size) × HasNoZero name

c_str-HasNoZero : (name : Bytes) → HasNoZero name → c_str name ≡ name
unfolding c_str
c_str-HasNoZero [] h = refl
c_str-HasNoZero (b ∷ name) (h, hs) =
    let e : (b == 0) ≡ false = ground arith in rw e (ap (◌∷◌ b) (c_str-HasNoZero name hs))

-- The name that is read from the field is the one that was put there, cut to 31 bytes.
pub c_str-name_field : (name : Bytes) → c_str (name_field name) ≡ take (name_size - 1) (c_str name)
unfolding name_field
c_str-name_field name =
    c_str-take (name_size - 1) (name_size - length (take (name_size - 1) (c_str name))) name
      (omega (arith, length-take (name_size - 1) (c_str name)))

pub c_str-name_field_whole : (name : Bytes) → IsName name → c_str (name_field name) ≡ name
c_str-name_field_whole name (short, h) =
    c_str-name_field name
    ∙ ap (take (name_size - 1)) (c_str-HasNoZero name h)
    ∙ take_of_length-le (name_size - 1) name (omega arith)
