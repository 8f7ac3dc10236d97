-- ===== src/Handle/Types.antt =====
-- The table of handle types: dpiHandleTypeNum of src/dpiImpl.h and `dpiAllTypeDefs` of src/dpiGen.c.
use Prim.Native.String.{String}
use alpha_odpi.Prelude.{ℕ, Bool, true, false, List, [], ◌∷◌, get_or}

-- `dpiHandleTypeNum`; `DPI_HTYPE_NONE` and `DPI_HTYPE_MAX` are bounds and no types.
pub data HandleType : Type 0 where
  conn_handle pool_handle stmt_handle var_handle lob_handle object_handle object_type_handle
        object_attr_handle subscr_handle deq_options_handle enq_options_handle msg_props_handle
        rowid_handle context_handle soda_coll_handle soda_coll_cursor_handle soda_db_handle
        soda_doc_handle soda_doc_cursor_handle queue_handle json_handle vector_handle :
      HandleType

-- `typeNum - DPI_HTYPE_NONE - 1`
abbrev pub type_index : HandleType → ℕ
type_index conn_handle = 0
type_index pool_handle = 1
type_index stmt_handle = 2
type_index var_handle = 3
type_index lob_handle = 4
type_index object_handle = 5
type_index object_type_handle = 6
type_index object_attr_handle = 7
type_index subscr_handle = 8
type_index deq_options_handle = 9
type_index enq_options_handle = 10
type_index msg_props_handle = 11
type_index rowid_handle = 12
type_index context_handle = 13
type_index soda_coll_handle = 14
type_index soda_coll_cursor_handle = 15
type_index soda_db_handle = 16
type_index soda_doc_handle = 17
type_index soda_doc_cursor_handle = 18
type_index queue_handle = 19
type_index json_handle = 20
type_index vector_handle = 21

-- `dpiTypeDef`: the name, the check integer, and whether there is a function that frees the type.
-- The size of the structure is the compiler's.
pub record TypeDef : Type 0 where
  pub name : String
  pub check_int : ℕ
  pub has_free_proc : Bool

-- `dpiAllTypeDefs`
abbrev pub type_defs : List TypeDef
type_defs =
    record { name = "dpiConn"; check_int = 0x49dc600c; has_free_proc = true }
    ∷ record { name = "dpiPool"; check_int = 0x18e1aa4b; has_free_proc = true }
    ∷ record { name = "dpiStmt"; check_int = 0x31b02b2e; has_free_proc = true }
    ∷ record { name = "dpiVar"; check_int = 0x2ae8c6dc; has_free_proc = true }
    ∷ record { name = "dpiLob"; check_int = 0xd8f31746; has_free_proc = true }
    ∷ record { name = "dpiObject"; check_int = 0x38616080; has_free_proc = true }
    ∷ record { name = "dpiObjectType"; check_int = 0x86036059; has_free_proc = true }
    ∷ record { name = "dpiObjectAttr"; check_int = 0xea6d5dde; has_free_proc = true }
    ∷ record { name = "dpiSubscr"; check_int = 0xa415a1c0; has_free_proc = true }
    ∷ record { name = "dpiDeqOptions"; check_int = 0x70ee498d; has_free_proc = true }
    ∷ record { name = "dpiEnqOptions"; check_int = 0x682f3946; has_free_proc = true }
    ∷ record { name = "dpiMsgProps"; check_int = 0xa2b75506; has_free_proc = true }
    ∷ record { name = "dpiRowid"; check_int = 0x6204fa04; has_free_proc = true }
    ∷ record { name = "dpiContext"; check_int = 0xd81b9181; has_free_proc = false }
    ∷ record { name = "dpiSodaColl"; check_int = 0x3684db22; has_free_proc = true }
    ∷ record { name = "dpiSodaCollCursor"; check_int = 0xcdc73b86; has_free_proc = true }
    ∷ record { name = "dpiSodaDb"; check_int = 0x1f386121; has_free_proc = true }
    ∷ record { name = "dpiSodaDoc"; check_int = 0xaffd950a; has_free_proc = true }
    ∷ record { name = "dpiSodaDocCursor"; check_int = 0x80ceb83b; has_free_proc = true }
    ∷ record { name = "dpiQueue"; check_int = 0x54904ba2; has_free_proc = true }
    ∷ record { name = "dpiJson"; check_int = 0xf6712bec; has_free_proc = true }
    ∷ record { name = "dpiVector"; check_int = 0x6c3dd6e9; has_free_proc = true }
    ∷ []

-- `&dpiAllTypeDefs[typeNum - DPI_HTYPE_NONE - 1]`
abbrev pub type_def : HandleType → TypeDef
type_def t =
    get_or type_defs (type_index t) (record { name = ""; check_int = 0; has_free_proc = false })
