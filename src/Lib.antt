-- ===== src/Lib.antt =====
-- ODPI-C, a library in C between a program and the client of an Oracle database: the parts of it
-- that compute by themselves.
--
-- The client (OCI) is loaded when a program runs and is not in the repository; what the modelled
-- parts use of it is a parameter. A call of the library returns DPI_SUCCESS or DPI_FAILURE with the
-- error in a buffer: here a Result, ok with the values that the call gives back, or err.
--
--   Prelude     lists, options, tests, integers and the rules of the tactics that the parts share
--   Error       dpiErrorNum of src/dpiImpl.h, and results
--     Messages    src/dpiErrorMessages.h
--     Buffer      dpiError__set, dpiError__wrap and the SQL state of dpiError__getInfo of
--                 src/dpiError.c
--     Oci         dpiError__setFromOCI of src/dpiError.c and dpiOci__errorGet of src/dpiOci.c
--     Length, Health, Numbered
--                 the length of a message, the session behind an error, the table of messages
--   Handle      src/dpiGen.c: allocation, check and reference count of every handle
--     Public      dpiGen__startPublicFn, dpiGen__endPublicFn, dpiGen__addRef and dpiGen__release,
--                 dpiError__initHandle of src/dpiError.c
--     Counting, Pooled
--                 a handle over its life, a call and the pool of error handles
--   Options     what src/dpiDeqOptions.c, src/dpiEnqOptions.c and src/dpiMsgProps.c share
--     Deq, Enq, Msg
--                 the getters and setters of attributes of the three files
--     RoundTrip   what is set and what is then got
--   Version     the checks of versions of src/dpiUtils.c, with Order for their meaning
--     Token       dpiUtils__setAccessTokenAttributes
--   Vector      dpiVector__getValue of src/dpiVector.c and its functions of src/dpiOci.c
--     Calls       dpiVector_getValue and dpiVector_setValue
--     Cache, Size the values that are kept, and their memory
--   Queue       dpiQueue of src/dpiQueue.c, the checks of a message and the buffer of messages
--     Enqueue     dpiQueue__enq, dpiQueue_enqOne and dpiQueue_enqMany
--     Delivery    which messages the client is given
--     Dequeue     dpiQueue__deq, dpiQueue_deqOne and dpiQueue_deqMany, with Places and Order for the
--                 messages that the caller is given
--   Conn        dpiConn__getSession of src/dpiConn.c, with Acquire for the session that it leaves
--     Release     dpiConn__getServerVersion, with Kept for what is found and kept
--   Var         src/dpiVar.c
--     Chunks      bytes whose length is not known before (dpiDynamicBytes): the callback
--                 dpiVar__defineCallback, dpiVar__allocateDynamicBytes and
--                 dpiVar__setBytesFromDynamicBytes, with Sound, Received, Pieces and
--                 Room for what they hold
--     Allocate    dpiVar__allocate, dpiVar__validateTypes and dpiVar_setNumElementsInArray, with
--                 Width for the rows of a new variable; what dpiVar__initBuffer answers is a
--                 parameter
--     Lob         dpiVar__setBytesFromLob, with Read for what is read and where to
--     Bytes       dpiVar_setFromBytes and dpiVar__setFromBytes, with Copy and Stored for what they
--                 leave
--   Transaction dpiUtils__getTransactionHandle, with Own for what it gives
--   StringList  src/dpiStringList.c, with Elements for what a list holds
--   Number      numbers as text and as the bytes of an OCINumber
--     Digits      the sign, the place of the point and the digits into which a number is split
--     Scan        dpiUtils__parseNumberString of src/dpiUtils.c, a loop for each `while`
--     Decode      dpiUtils__parseOracleNumber of src/dpiUtils.c
--     Encode      dpiDataBuffer__toOracleNumberFromText of src/dpiData.c
--     Text        dpiDataBuffer__fromOracleNumberAsText of src/dpiData.c
--     Print, Parse, Bytes, Codec
--                 how the four functions go together
--   HandleList  src/dpiHandleList.c: the open handles of a connection
--   HandlePool  src/dpiHandlePool.c: the error handles of an environment that wait for use
--   Stmt        dpiStmt of src/dpiImpl.h and what it uses of the client (the record Client)
--     Vars        dpiStmt__createQueryVars, dpiStmt__beforeFetch and dpiStmt__postFetch of
--                 src/dpiStmt.c
--     Fetch       dpiStmt__check, dpiStmt__init, dpiStmt__fetch, dpiStmt_fetch and
--                 dpiStmt_fetchRows of src/dpiStmt.c; dpiOci__stmtFetch2 of src/dpiOci.c
--     Scroll      dpiStmt_scroll of src/dpiStmt.c, with Within for a row in the buffers
--     Ready, Rows what a statement and a client have to be for the rows to come, and which come
--   OracleType  the record and the constants of src/dpiImpl.h and include/dpi.h
--     Plain, Structured, Table
--                 dpiAllOracleTypes, dpiOracleType__convertFromOracle and
--                 dpiOracleType__getFromNum of src/dpiOracleType.c
--     Conversion, Lookup
--                 the codes that the two agree on, and what is found
--
-- All loops but one run over a list or over a count that the source fixes before the loop, and need
-- no fuel. The loop of dpiConn__getSession takes sessions until one can be used: it has fuel, and one
-- more than the number of used sessions that wait is enough, as each round but the last takes one.
--
-- A uint8_t or uint32_t has its sums taken modulo 2 ^ 8 or 2 ^ 32; the int16_t place of the point
-- stays between -1302 and 1172, as the text has 173 characters and the exponent three digits at most,
-- and is an integer of the model.
--
-- Memory that is allocated is an argument, the answer of the allocator. Mutexes are held over whole
-- calls, so that a call is one step.
--
-- Of the client a statement uses OCIStmtFetch2 and attributes of its handle; of src/dpiVar.c it uses
-- dpiVar__allocate, dpiVar__extendedPreFetch and dpiVar__getValue, and it defines its variables with
-- dpiStmt__define: these calls are fields of the record Client and may fail. What they do to the
-- values in the buffers is not modelled. Promises of the client stand in the record Serves.
--
-- A handle is its type, check integer and count of references; that memory which was freed is not
-- touched is outside the model. The client keeps attributes by itself: a descriptor is a state of any
-- type, with the calls of a record of functions (AttrClient, VectorClient), and what a theorem needs
-- of them is a record of laws (Keeps, Writes). The text that vsnprintf makes is a parameter.
--
-- A variable is taken one position at a time, as its arrays have it there; dpiLob__setFromBytes,
-- dpiLob__readBytes and dpiQueue__getPayloadTDO are parameters of what calls them. An array that could
-- not be allocated is empty.
--
-- Not modelled: the rest of src/dpiStmt.c (execution, binding, defining, closing, attributes), of
-- src/dpiVar.c (buffers of other types, conversions, binds) and of src/dpiConn.c (creation, closing,
-- attributes), the conversions of src/dpiData.c other than those of text, the setting of message ids
-- and payloads, what the Oracle Client keeps by itself (session pools, LOBs, objects, SODA,
-- subscriptions), debug output, samples and tests.
pub mod Prelude
pub mod Error
pub mod Number
pub mod HandleList
pub mod HandlePool
pub mod Stmt
pub mod OracleType
pub mod Handle
pub mod Options
pub mod Version
pub mod Vector
pub mod StringList
pub mod Queue
pub mod Transaction
pub mod Conn
pub mod Var
