-- ===== src/Words/Dictionary/Short.antt =====
-- pcDict of shared/rfc1751.cpp: its words of at most three letters.
use Prim.Native.String.{String}
use bytev.Prelude.{List, [], ◌∷◌}

abbrev pub short_words : List String
short_words =
    "A" ∷ "ABE" ∷ "ACE" ∷ "ACT" ∷ "AD" ∷ "ADA" ∷ "ADD" ∷ "AGO" ∷ "AID" ∷ "AIM" ∷ "AIR" ∷ "ALL"
    ∷ "ALP" ∷ "AM" ∷ "AMY" ∷ "AN" ∷ "ANA" ∷ "AND" ∷ "ANN" ∷ "ANT" ∷ "ANY" ∷ "APE" ∷ "APS" ∷ "APT"
    ∷ "ARC" ∷ "ARE" ∷ "ARK" ∷ "ARM" ∷ "ART" ∷ "AS" ∷ "ASH" ∷ "ASK" ∷ "AT" ∷ "ATE" ∷ "AUG" ∷ "AUK"
    ∷ "AVE" ∷ "AWE" ∷ "AWK" ∷ "AWL" ∷ "AWN" ∷ "AX" ∷ "AYE" ∷ "BAD" ∷ "BAG" ∷ "BAH" ∷ "BAM" ∷ "BAN"
    ∷ "BAR" ∷ "BAT" ∷ "BAY" ∷ "BE" ∷ "BED" ∷ "BEE" ∷ "BEG" ∷ "BEN" ∷ "BET" ∷ "BEY" ∷ "BIB" ∷ "BID"
    ∷ "BIG" ∷ "BIN" ∷ "BIT" ∷ "BOB" ∷ "BOG" ∷ "BON" ∷ "BOO" ∷ "BOP" ∷ "BOW" ∷ "BOY" ∷ "BUB" ∷ "BUD"
    ∷ "BUG" ∷ "BUM" ∷ "BUN" ∷ "BUS" ∷ "BUT" ∷ "BUY" ∷ "BY" ∷ "BYE" ∷ "CAB" ∷ "CAL" ∷ "CAM" ∷ "CAN"
    ∷ "CAP" ∷ "CAR" ∷ "CAT" ∷ "CAW" ∷ "COD" ∷ "COG" ∷ "COL" ∷ "CON" ∷ "COO" ∷ "COP" ∷ "COT" ∷ "COW"
    ∷ "COY" ∷ "CRY" ∷ "CUB" ∷ "CUE" ∷ "CUP" ∷ "CUR" ∷ "CUT" ∷ "DAB" ∷ "DAD" ∷ "DAM" ∷ "DAN" ∷ "DAR"
    ∷ "DAY" ∷ "DEE" ∷ "DEL" ∷ "DEN" ∷ "DES" ∷ "DEW" ∷ "DID" ∷ "DIE" ∷ "DIG" ∷ "DIN" ∷ "DIP" ∷ "DO"
    ∷ "DOE" ∷ "DOG" ∷ "DON" ∷ "DOT" ∷ "DOW" ∷ "DRY" ∷ "DUB" ∷ "DUD" ∷ "DUE" ∷ "DUG" ∷ "DUN" ∷ "EAR"
    ∷ "EAT" ∷ "ED" ∷ "EEL" ∷ "EGG" ∷ "EGO" ∷ "ELI" ∷ "ELK" ∷ "ELM" ∷ "ELY" ∷ "EM" ∷ "END" ∷ "EST"
    ∷ "ETC" ∷ "EVA" ∷ "EVE" ∷ "EWE" ∷ "EYE" ∷ "FAD" ∷ "FAN" ∷ "FAR" ∷ "FAT" ∷ "FAY" ∷ "FED" ∷ "FEE"
    ∷ "FEW" ∷ "FIB" ∷ "FIG" ∷ "FIN" ∷ "FIR" ∷ "FIT" ∷ "FLO" ∷ "FLY" ∷ "FOE" ∷ "FOG" ∷ "FOR" ∷ "FRY"
    ∷ "FUM" ∷ "FUN" ∷ "FUR" ∷ "GAB" ∷ "GAD" ∷ "GAG" ∷ "GAL" ∷ "GAM" ∷ "GAP" ∷ "GAS" ∷ "GAY" ∷ "GEE"
    ∷ "GEL" ∷ "GEM" ∷ "GET" ∷ "GIG" ∷ "GIL" ∷ "GIN" ∷ "GO" ∷ "GOT" ∷ "GUM" ∷ "GUN" ∷ "GUS" ∷ "GUT"
    ∷ "GUY" ∷ "GYM" ∷ "GYP" ∷ "HA" ∷ "HAD" ∷ "HAL" ∷ "HAM" ∷ "HAN" ∷ "HAP" ∷ "HAS" ∷ "HAT" ∷ "HAW"
    ∷ "HAY" ∷ "HE" ∷ "HEM" ∷ "HEN" ∷ "HER" ∷ "HEW" ∷ "HEY" ∷ "HI" ∷ "HID" ∷ "HIM" ∷ "HIP" ∷ "HIS"
    ∷ "HIT" ∷ "HO" ∷ "HOB" ∷ "HOC" ∷ "HOE" ∷ "HOG" ∷ "HOP" ∷ "HOT" ∷ "HOW" ∷ "HUB" ∷ "HUE" ∷ "HUG"
    ∷ "HUH" ∷ "HUM" ∷ "HUT" ∷ "I" ∷ "ICY" ∷ "IDA" ∷ "IF" ∷ "IKE" ∷ "ILL" ∷ "INK" ∷ "INN" ∷ "IO"
    ∷ "ION" ∷ "IQ" ∷ "IRA" ∷ "IRE" ∷ "IRK" ∷ "IS" ∷ "IT" ∷ "ITS" ∷ "IVY" ∷ "JAB" ∷ "JAG" ∷ "JAM"
    ∷ "JAN" ∷ "JAR" ∷ "JAW" ∷ "JAY" ∷ "JET" ∷ "JIG" ∷ "JIM" ∷ "JO" ∷ "JOB" ∷ "JOE" ∷ "JOG" ∷ "JOT"
    ∷ "JOY" ∷ "JUG" ∷ "JUT" ∷ "KAY" ∷ "KEG" ∷ "KEN" ∷ "KEY" ∷ "KID" ∷ "KIM" ∷ "KIN" ∷ "KIT" ∷ "LA"
    ∷ "LAB" ∷ "LAC" ∷ "LAD" ∷ "LAG" ∷ "LAM" ∷ "LAP" ∷ "LAW" ∷ "LAY" ∷ "LEA" ∷ "LED" ∷ "LEE" ∷ "LEG"
    ∷ "LEN" ∷ "LEO" ∷ "LET" ∷ "LEW" ∷ "LID" ∷ "LIE" ∷ "LIN" ∷ "LIP" ∷ "LIT" ∷ "LO" ∷ "LOB" ∷ "LOG"
    ∷ "LOP" ∷ "LOS" ∷ "LOT" ∷ "LOU" ∷ "LOW" ∷ "LOY" ∷ "LUG" ∷ "LYE" ∷ "MA" ∷ "MAC" ∷ "MAD" ∷ "MAE"
    ∷ "MAN" ∷ "MAO" ∷ "MAP" ∷ "MAT" ∷ "MAW" ∷ "MAY" ∷ "ME" ∷ "MEG" ∷ "MEL" ∷ "MEN" ∷ "MET" ∷ "MEW"
    ∷ "MID" ∷ "MIN" ∷ "MIT" ∷ "MOB" ∷ "MOD" ∷ "MOE" ∷ "MOO" ∷ "MOP" ∷ "MOS" ∷ "MOT" ∷ "MOW" ∷ "MUD"
    ∷ "MUG" ∷ "MUM" ∷ "MY" ∷ "NAB" ∷ "NAG" ∷ "NAN" ∷ "NAP" ∷ "NAT" ∷ "NAY" ∷ "NE" ∷ "NED" ∷ "NEE"
    ∷ "NET" ∷ "NEW" ∷ "NIB" ∷ "NIL" ∷ "NIP" ∷ "NIT" ∷ "NO" ∷ "NOB" ∷ "NOD" ∷ "NON" ∷ "NOR" ∷ "NOT"
    ∷ "NOV" ∷ "NOW" ∷ "NU" ∷ "NUN" ∷ "NUT" ∷ "O" ∷ "OAF" ∷ "OAK" ∷ "OAR" ∷ "OAT" ∷ "ODD" ∷ "ODE"
    ∷ "OF" ∷ "OFF" ∷ "OFT" ∷ "OH" ∷ "OIL" ∷ "OK" ∷ "OLD" ∷ "ON" ∷ "ONE" ∷ "OR" ∷ "ORB" ∷ "ORE"
    ∷ "ORR" ∷ "OS" ∷ "OTT" ∷ "OUR" ∷ "OUT" ∷ "OVA" ∷ "OW" ∷ "OWE" ∷ "OWL" ∷ "OWN" ∷ "OX" ∷ "PA"
    ∷ "PAD" ∷ "PAL" ∷ "PAM" ∷ "PAN" ∷ "PAP" ∷ "PAR" ∷ "PAT" ∷ "PAW" ∷ "PAY" ∷ "PEA" ∷ "PEG" ∷ "PEN"
    ∷ "PEP" ∷ "PER" ∷ "PET" ∷ "PEW" ∷ "PHI" ∷ "PI" ∷ "PIE" ∷ "PIN" ∷ "PIT" ∷ "PLY" ∷ "PO" ∷ "POD"
    ∷ "POE" ∷ "POP" ∷ "POT" ∷ "POW" ∷ "PRO" ∷ "PRY" ∷ "PUB" ∷ "PUG" ∷ "PUN" ∷ "PUP" ∷ "PUT" ∷ "QUO"
    ∷ "RAG" ∷ "RAM" ∷ "RAN" ∷ "RAP" ∷ "RAT" ∷ "RAW" ∷ "RAY" ∷ "REB" ∷ "RED" ∷ "REP" ∷ "RET" ∷ "RIB"
    ∷ "RID" ∷ "RIG" ∷ "RIM" ∷ "RIO" ∷ "RIP" ∷ "ROB" ∷ "ROD" ∷ "ROE" ∷ "RON" ∷ "ROT" ∷ "ROW" ∷ "ROY"
    ∷ "RUB" ∷ "RUE" ∷ "RUG" ∷ "RUM" ∷ "RUN" ∷ "RYE" ∷ "SAC" ∷ "SAD" ∷ "SAG" ∷ "SAL" ∷ "SAM" ∷ "SAN"
    ∷ "SAP" ∷ "SAT" ∷ "SAW" ∷ "SAY" ∷ "SEA" ∷ "SEC" ∷ "SEE" ∷ "SEN" ∷ "SET" ∷ "SEW" ∷ "SHE" ∷ "SHY"
    ∷ "SIN" ∷ "SIP" ∷ "SIR" ∷ "SIS" ∷ "SIT" ∷ "SKI" ∷ "SKY" ∷ "SLY" ∷ "SO" ∷ "SOB" ∷ "SOD" ∷ "SON"
    ∷ "SOP" ∷ "SOW" ∷ "SOY" ∷ "SPA" ∷ "SPY" ∷ "SUB" ∷ "SUD" ∷ "SUE" ∷ "SUM" ∷ "SUN" ∷ "SUP" ∷ "TAB"
    ∷ "TAD" ∷ "TAG" ∷ "TAN" ∷ "TAP" ∷ "TAR" ∷ "TEA" ∷ "TED" ∷ "TEE" ∷ "TEN" ∷ "THE" ∷ "THY" ∷ "TIC"
    ∷ "TIE" ∷ "TIM" ∷ "TIN" ∷ "TIP" ∷ "TO" ∷ "TOE" ∷ "TOG" ∷ "TOM" ∷ "TON" ∷ "TOO" ∷ "TOP" ∷ "TOW"
    ∷ "TOY" ∷ "TRY" ∷ "TUB" ∷ "TUG" ∷ "TUM" ∷ "TUN" ∷ "TWO" ∷ "UN" ∷ "UP" ∷ "US" ∷ "USE" ∷ "VAN"
    ∷ "VAT" ∷ "VET" ∷ "VIE" ∷ "WAD" ∷ "WAG" ∷ "WAR" ∷ "WAS" ∷ "WAY" ∷ "WE" ∷ "WEB" ∷ "WED" ∷ "WEE"
    ∷ "WET" ∷ "WHO" ∷ "WHY" ∷ "WIN" ∷ "WIT" ∷ "WOK" ∷ "WON" ∷ "WOO" ∷ "WOW" ∷ "WRY" ∷ "WU" ∷ "YAM"
    ∷ "YAP" ∷ "YAW" ∷ "YE" ∷ "YEA" ∷ "YES" ∷ "YET" ∷ "YOU" ∷ []
