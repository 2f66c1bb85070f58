-- ===== src/Game/Text.antt =====
-- The fields of text in the packets that zone-server/internal/game handles: the helpers of server.go
-- and item_ledger.go.
use Prim.Native.String.{String}
use zone.Prelude.{
  ℕ, zero, suc, ◌-◌, Bool, not, ◌&&◌, List, [], ◌∷◌, ◌++◌, length, take, replicate, leb, ltb, ◌==◌,
  comparable_nat, if◌then◌else◌,
}

-- Text as Go has it. `is_printable`: the bytes are UTF-8, and all their runes print.
pub record Texts : Type 0 where
  pub is_utf8 : List ℕ → Bool
  pub is_printable : List ℕ → Bool
  pub text : List ℕ → String
  pub bytes : String → List ℕ

-- `nullTermString`
unfoldable pub null_term : List ℕ → List ℕ
null_term [] = []
null_term (c ∷ cs) = let rest = null_term cs in if c == 0 then [] else c ∷ rest

unfoldable pub valid_item_section : Texts → List ℕ → Bool
valid_item_section tx bytes =
    not (length bytes == 0) && leb (length bytes) 63 && tx.is_printable bytes

-- The loop of `truncateUTF8`: the longest prefix of so many bytes at most that is UTF-8.
unfoldable pub valid_prefix : Texts → ℕ → List ℕ → List ℕ
valid_prefix tx zero bytes = []
valid_prefix tx (suc n) bytes =
    let rest = valid_prefix tx n bytes in
    if tx.is_utf8 (take (suc n) bytes) then take (suc n) bytes else rest

unfoldable pub truncate_utf8 : Texts → List ℕ → ℕ → List ℕ
truncate_utf8 tx bytes max_bytes =
    if leb (length bytes) max_bytes then bytes else valid_prefix tx max_bytes bytes

-- `copyNulTerm` into an array of `size` zeros.
unfoldable pub copy_nul_term : Texts → ℕ → List ℕ → List ℕ
copy_nul_term tx size src =
    let cut = if ltb (size - 1) (length src) then truncate_utf8 tx src (size - 1) else src in
    cut ++ replicate (size - length cut) 0
