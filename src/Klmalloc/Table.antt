-- ===== src/Klmalloc/Table.antt =====
-- The sizes of the bins of src/klmalloc/klmalloc.c.
use sbma.Common.{ℕ, List, [], ◌∷◌}

unfoldable pub bin2size : List ℕ
bin2size =
    8 ∷ 16 ∷ 24 ∷ 32 ∷ 40 ∷ 48 ∷ 56 ∷ 64 ∷ 80 ∷ 96 ∷ 112 ∷ 128 ∷ 144 ∷ 160 ∷ 176 ∷ 192 ∷ 208 ∷ 224
    ∷ 240 ∷ 256 ∷ 288 ∷ 320 ∷ 352 ∷ 384 ∷ 416 ∷ 448 ∷ 480 ∷ 512 ∷ 544 ∷ 576 ∷ 608 ∷ 640 ∷ 672 ∷ 704
    ∷ 736 ∷ 768 ∷ 800 ∷ 832 ∷ 864 ∷ 896 ∷ 928 ∷ 960 ∷ 992 ∷ 1024 ∷ 1088 ∷ 1152 ∷ 1216 ∷ 1280 ∷ 1344
    ∷ 1408 ∷ 1472 ∷ 1536 ∷ 1600 ∷ 1664 ∷ 1728 ∷ 1792 ∷ 1856 ∷ 1920 ∷ 1984 ∷ 2048 ∷ 2112 ∷ 2176
    ∷ 2240 ∷ 2304 ∷ 2368 ∷ 2432 ∷ 2496 ∷ 2560 ∷ 2624 ∷ 2688 ∷ 2752 ∷ 2816 ∷ 2880 ∷ 2944 ∷ 3008
    ∷ 3072 ∷ 3136 ∷ 3200 ∷ 3264 ∷ 3328 ∷ 3392 ∷ 3456 ∷ 3520 ∷ 3584 ∷ 3648 ∷ 3712 ∷ 3776 ∷ 3840
    ∷ 3904 ∷ 3968 ∷ 4032 ∷ 4096 ∷ 4224 ∷ 4352 ∷ 4480 ∷ 4608 ∷ 4736 ∷ 4864 ∷ 4992 ∷ 5120 ∷ 5248
    ∷ 5376 ∷ 5504 ∷ 5632 ∷ 5760 ∷ 5888 ∷ 6016 ∷ 6144 ∷ 6272 ∷ 6400 ∷ 6528 ∷ 6656 ∷ 6784 ∷ 6912
    ∷ 7040 ∷ 7168 ∷ 7296 ∷ 7424 ∷ 7552 ∷ 7680 ∷ 7808 ∷ 7936 ∷ 8064 ∷ 8192 ∷ 8320 ∷ 8448 ∷ 8576
    ∷ 8704 ∷ 8832 ∷ 8960 ∷ 9088 ∷ 9216 ∷ 9344 ∷ 9472 ∷ 9600 ∷ 9728 ∷ 9856 ∷ 9984 ∷ 10112 ∷ 10240
    ∷ 10368 ∷ 10496 ∷ 10624 ∷ 10752 ∷ 10880 ∷ 11008 ∷ 11136 ∷ 11264 ∷ 11392 ∷ 11520 ∷ 11648 ∷ 11776
    ∷ 11904 ∷ 12032 ∷ 12160 ∷ 12288 ∷ 12416 ∷ 12544 ∷ 12672 ∷ 12800 ∷ 12928 ∷ 13056 ∷ 13184 ∷ 13312
    ∷ 13440 ∷ 13568 ∷ 13696 ∷ 13824 ∷ 13952 ∷ 14080 ∷ 14208 ∷ 14336 ∷ 14464 ∷ 14592 ∷ 14720 ∷ 14848
    ∷ 14976 ∷ 15104 ∷ 15232 ∷ 15360 ∷ 15488 ∷ 15616 ∷ 15744 ∷ 15872 ∷ 16000 ∷ 16128 ∷ 16256 ∷ 16384
    ∷ 16640 ∷ 16896 ∷ 17152 ∷ 17408 ∷ 17664 ∷ 17920 ∷ 18176 ∷ 18432 ∷ 18688 ∷ 18944 ∷ 19200 ∷ 19456
    ∷ 19712 ∷ 19968 ∷ 20224 ∷ 20480 ∷ 20736 ∷ 20992 ∷ 21248 ∷ 21504 ∷ 21760 ∷ 22016 ∷ 22272 ∷ 22528
    ∷ 22784 ∷ 23040 ∷ 23296 ∷ 23552 ∷ 23808 ∷ 24064 ∷ 24320 ∷ 24576 ∷ 24832 ∷ 25088 ∷ 25344 ∷ 25600
    ∷ 25856 ∷ 26112 ∷ 26368 ∷ 26624 ∷ 26880 ∷ 27136 ∷ 27392 ∷ 27648 ∷ 27904 ∷ 28160 ∷ 28416 ∷ 28672
    ∷ 28928 ∷ 29184 ∷ 29440 ∷ 29696 ∷ 29952 ∷ 30208 ∷ 30464 ∷ 30720 ∷ 30976 ∷ 31232 ∷ 31488 ∷ 31744
    ∷ 32000 ∷ 32256 ∷ 32512 ∷ 32768 ∷ 33024 ∷ 33280 ∷ 33536 ∷ 33792 ∷ 34048 ∷ 34304 ∷ 34560 ∷ 34816
    ∷ 35072 ∷ 35328 ∷ 35584 ∷ 35840 ∷ 36096 ∷ 36352 ∷ 36608 ∷ 36864 ∷ 37120 ∷ 37376 ∷ 37632 ∷ 37888
    ∷ 38144 ∷ 38400 ∷ 38656 ∷ 38912 ∷ 39168 ∷ 39424 ∷ 39680 ∷ 39936 ∷ 40192 ∷ 40448 ∷ 40704 ∷ 40960
    ∷ 41216 ∷ 41472 ∷ 41728 ∷ 41984 ∷ 42240 ∷ 42496 ∷ 42752 ∷ 43008 ∷ 43264 ∷ 43520 ∷ 43776 ∷ 44032
    ∷ 44288 ∷ 44544 ∷ 44800 ∷ 45056 ∷ 45312 ∷ 45568 ∷ 45824 ∷ 46080 ∷ 46336 ∷ 46592 ∷ 46848 ∷ 47104
    ∷ 47360 ∷ 47616 ∷ 47872 ∷ 48128 ∷ 48384 ∷ 48640 ∷ 48896 ∷ 49152 ∷ 49408 ∷ 49664 ∷ 49920 ∷ 50176
    ∷ 50432 ∷ 50688 ∷ 50944 ∷ 51200 ∷ 51456 ∷ 51712 ∷ 51968 ∷ 52224 ∷ 52480 ∷ 52736 ∷ 52992 ∷ 53248
    ∷ 53504 ∷ 53760 ∷ 54016 ∷ 54272 ∷ 54528 ∷ 54784 ∷ 55040 ∷ 55296 ∷ 55552 ∷ 55808 ∷ 56064 ∷ 56320
    ∷ 56576 ∷ 56832 ∷ 57088 ∷ 57344 ∷ 57600 ∷ 57856 ∷ 58112 ∷ 58368 ∷ 58624 ∷ 58880 ∷ 59136 ∷ 59392
    ∷ 59648 ∷ 59904 ∷ 60160 ∷ 60416 ∷ 60672 ∷ 60928 ∷ 61184 ∷ 61440 ∷ 61696 ∷ 61952 ∷ 62208 ∷ 62464
    ∷ 62720 ∷ 62976 ∷ 63232 ∷ 63488 ∷ 63744 ∷ 64000 ∷ 64256 ∷ 64512 ∷ 64768 ∷ 65024 ∷ 65280 ∷ 65536
    ∷ 66048 ∷ 66560 ∷ 67072 ∷ 67584 ∷ 68096 ∷ 68608 ∷ 69120 ∷ 69632 ∷ 70144 ∷ 70656 ∷ 71168 ∷ 71680
    ∷ 72192 ∷ 72704 ∷ 73216 ∷ 73728 ∷ 74240 ∷ 74752 ∷ 75264 ∷ 75776 ∷ 76288 ∷ 76800 ∷ 77312 ∷ 77824
    ∷ 78336 ∷ 78848 ∷ 79360 ∷ 79872 ∷ 80384 ∷ 80896 ∷ 81408 ∷ 81920 ∷ 82432 ∷ 82944 ∷ 83456 ∷ 83968
    ∷ 84480 ∷ 84992 ∷ 85504 ∷ 86016 ∷ 86528 ∷ 87040 ∷ 87552 ∷ 88064 ∷ 88576 ∷ 89088 ∷ 89600 ∷ 90112
    ∷ 90624 ∷ 91136 ∷ 91648 ∷ 92160 ∷ 92672 ∷ 93184 ∷ 93696 ∷ 94208 ∷ 94720 ∷ 95232 ∷ 95744 ∷ 96256
    ∷ 96768 ∷ 97280 ∷ 97792 ∷ 98304 ∷ 98816 ∷ 99328 ∷ 99840 ∷ 100352 ∷ 100864 ∷ 101376 ∷ 101888
    ∷ 102400 ∷ 102912 ∷ 103424 ∷ 103936 ∷ 104448 ∷ 104960 ∷ 105472 ∷ 105984 ∷ 106496 ∷ 107008
    ∷ 107520 ∷ 108032 ∷ 108544 ∷ 109056 ∷ 109568 ∷ 110080 ∷ 110592 ∷ 111104 ∷ 111616 ∷ 112128
    ∷ 112640 ∷ 113152 ∷ 113664 ∷ 114176 ∷ 114688 ∷ 115200 ∷ 115712 ∷ 116224 ∷ 116736 ∷ 117248
    ∷ 117760 ∷ 118272 ∷ 118784 ∷ 119296 ∷ 119808 ∷ 120320 ∷ 120832 ∷ 121344 ∷ 121856 ∷ 122368
    ∷ 122880 ∷ 123392 ∷ 123904 ∷ 124416 ∷ 124928 ∷ 125440 ∷ 125952 ∷ 126464 ∷ 126976 ∷ 127488
    ∷ 128000 ∷ 128512 ∷ 129024 ∷ 129536 ∷ 130048 ∷ 130560 ∷ 131072 ∷ 131584 ∷ 132096 ∷ 132608
    ∷ 133120 ∷ 133632 ∷ 134144 ∷ 134656 ∷ 135168 ∷ 135680 ∷ 136192 ∷ 136704 ∷ 137216 ∷ 137728
    ∷ 138240 ∷ 138752 ∷ 139264 ∷ 139776 ∷ 140288 ∷ 140800 ∷ 141312 ∷ 141824 ∷ 142336 ∷ 142848
    ∷ 143360 ∷ 143872 ∷ 144384 ∷ 144896 ∷ 145408 ∷ 145920 ∷ 146432 ∷ 146944 ∷ 147456 ∷ 147968
    ∷ 148480 ∷ 148992 ∷ 149504 ∷ 150016 ∷ 150528 ∷ 151040 ∷ 151552 ∷ 152064 ∷ 152576 ∷ 153088
    ∷ 153600 ∷ 154112 ∷ 154624 ∷ 155136 ∷ 155648 ∷ 156160 ∷ 156672 ∷ 157184 ∷ 157696 ∷ 158208
    ∷ 158720 ∷ 159232 ∷ 159744 ∷ 160256 ∷ 160768 ∷ 161280 ∷ 161792 ∷ 162304 ∷ 162816 ∷ 163328
    ∷ 163840 ∷ 164352 ∷ 164864 ∷ 165376 ∷ 165888 ∷ 166400 ∷ 166912 ∷ 167424 ∷ 167936 ∷ 168448
    ∷ 168960 ∷ 169472 ∷ 169984 ∷ 170496 ∷ 171008 ∷ 171520 ∷ 172032 ∷ 172544 ∷ 173056 ∷ 173568
    ∷ 174080 ∷ 174592 ∷ 175104 ∷ 175616 ∷ 176128 ∷ 176640 ∷ 177152 ∷ 177664 ∷ 178176 ∷ 178688
    ∷ 179200 ∷ 179712 ∷ 180224 ∷ 180736 ∷ 181248 ∷ 181760 ∷ 182272 ∷ 182784 ∷ 183296 ∷ 183808
    ∷ 184320 ∷ 184832 ∷ 185344 ∷ 185856 ∷ 186368 ∷ 186880 ∷ 187392 ∷ 187904 ∷ 188416 ∷ 188928
    ∷ 189440 ∷ 189952 ∷ 190464 ∷ 190976 ∷ 191488 ∷ 192000 ∷ 192512 ∷ 193024 ∷ 193536 ∷ 194048
    ∷ 194560 ∷ 195072 ∷ 195584 ∷ 196096 ∷ 196608 ∷ 197120 ∷ 197632 ∷ 198144 ∷ 198656 ∷ 199168
    ∷ 199680 ∷ 200192 ∷ 200704 ∷ 201216 ∷ 201728 ∷ 202240 ∷ 202752 ∷ 203264 ∷ 203776 ∷ 204288
    ∷ 204800 ∷ 205312 ∷ 205824 ∷ 206336 ∷ 206848 ∷ 207360 ∷ 207872 ∷ 208384 ∷ 208896 ∷ 209408
    ∷ 209920 ∷ 210432 ∷ 210944 ∷ 211456 ∷ 211968 ∷ 212480 ∷ 212992 ∷ 213504 ∷ 214016 ∷ 214528
    ∷ 215040 ∷ 215552 ∷ 216064 ∷ 216576 ∷ 217088 ∷ 217600 ∷ 218112 ∷ 218624 ∷ 219136 ∷ 219648
    ∷ 220160 ∷ 220672 ∷ 221184 ∷ 221696 ∷ 222208 ∷ 222720 ∷ 223232 ∷ 223744 ∷ 224256 ∷ 224768
    ∷ 225280 ∷ 225792 ∷ 226304 ∷ 226816 ∷ 227328 ∷ 227840 ∷ 228352 ∷ 228864 ∷ 229376 ∷ 229888
    ∷ 230400 ∷ 230912 ∷ 231424 ∷ 231936 ∷ 232448 ∷ 232960 ∷ 233472 ∷ 233984 ∷ 234496 ∷ 235008
    ∷ 235520 ∷ 236032 ∷ 236544 ∷ 237056 ∷ 237568 ∷ 238080 ∷ 238592 ∷ 239104 ∷ 239616 ∷ 240128
    ∷ 240640 ∷ 241152 ∷ 241664 ∷ 242176 ∷ 242688 ∷ 243200 ∷ 243712 ∷ 244224 ∷ 244736 ∷ 245248
    ∷ 245760 ∷ 246272 ∷ 246784 ∷ 247296 ∷ 247808 ∷ 248320 ∷ 248832 ∷ 249344 ∷ 249856 ∷ 250368
    ∷ 250880 ∷ 251392 ∷ 251904 ∷ 252416 ∷ 252928 ∷ 253440 ∷ 253952 ∷ 254464 ∷ 254976 ∷ 255488
    ∷ 256000 ∷ 256512 ∷ 257024 ∷ 257536 ∷ 258048 ∷ 258560 ∷ 259072 ∷ 259584 ∷ 260096 ∷ 260608
    ∷ 261120 ∷ 261632 ∷ 262144 ∷ 263168 ∷ 264192 ∷ 265216 ∷ 266240 ∷ 267264 ∷ 268288 ∷ 269312
    ∷ 270336 ∷ 271360 ∷ 272384 ∷ 273408 ∷ 274432 ∷ 275456 ∷ 276480 ∷ 277504 ∷ 278528 ∷ 279552
    ∷ 280576 ∷ 281600 ∷ 282624 ∷ 283648 ∷ 284672 ∷ 285696 ∷ 286720 ∷ 287744 ∷ 288768 ∷ 289792
    ∷ 290816 ∷ 291840 ∷ 292864 ∷ 293888 ∷ 294912 ∷ 295936 ∷ 296960 ∷ 297984 ∷ 299008 ∷ 300032
    ∷ 301056 ∷ 302080 ∷ 303104 ∷ 304128 ∷ 305152 ∷ 306176 ∷ 307200 ∷ 308224 ∷ 309248 ∷ 310272
    ∷ 311296 ∷ 312320 ∷ 313344 ∷ 314368 ∷ 315392 ∷ 316416 ∷ 317440 ∷ 318464 ∷ 319488 ∷ 320512
    ∷ 321536 ∷ 322560 ∷ 323584 ∷ 324608 ∷ 325632 ∷ 326656 ∷ 327680 ∷ 328704 ∷ 329728 ∷ 330752
    ∷ 331776 ∷ 332800 ∷ 333824 ∷ 334848 ∷ 335872 ∷ 336896 ∷ 337920 ∷ 338944 ∷ 339968 ∷ 340992
    ∷ 342016 ∷ 343040 ∷ 344064 ∷ 345088 ∷ 346112 ∷ 347136 ∷ 348160 ∷ 349184 ∷ 350208 ∷ 351232
    ∷ 352256 ∷ 353280 ∷ 354304 ∷ 355328 ∷ 356352 ∷ 357376 ∷ 358400 ∷ 359424 ∷ 360448 ∷ 361472
    ∷ 362496 ∷ 363520 ∷ 364544 ∷ 365568 ∷ 366592 ∷ 367616 ∷ 368640 ∷ 369664 ∷ 370688 ∷ 371712
    ∷ 372736 ∷ 373760 ∷ 374784 ∷ 375808 ∷ 376832 ∷ 377856 ∷ 378880 ∷ 379904 ∷ 380928 ∷ 381952
    ∷ 382976 ∷ 384000 ∷ 385024 ∷ 386048 ∷ 387072 ∷ 388096 ∷ 389120 ∷ 390144 ∷ 391168 ∷ 392192
    ∷ 393216 ∷ 394240 ∷ 395264 ∷ 396288 ∷ 397312 ∷ 398336 ∷ 399360 ∷ 400384 ∷ 401408 ∷ 402432
    ∷ 403456 ∷ 404480 ∷ 405504 ∷ 406528 ∷ 407552 ∷ 408576 ∷ 409600 ∷ 410624 ∷ 411648 ∷ 412672
    ∷ 413696 ∷ 414720 ∷ 415744 ∷ 416768 ∷ 417792 ∷ 418816 ∷ 419840 ∷ 420864 ∷ 421888 ∷ 422912
    ∷ 423936 ∷ 424960 ∷ 425984 ∷ 427008 ∷ 428032 ∷ 429056 ∷ 430080 ∷ 431104 ∷ 432128 ∷ 433152
    ∷ 434176 ∷ 435200 ∷ 436224 ∷ 437248 ∷ 438272 ∷ 439296 ∷ 440320 ∷ 441344 ∷ 442368 ∷ 443392
    ∷ 444416 ∷ 445440 ∷ 446464 ∷ 447488 ∷ 448512 ∷ 449536 ∷ 450560 ∷ 451584 ∷ 452608 ∷ 453632
    ∷ 454656 ∷ 455680 ∷ 456704 ∷ 457728 ∷ 458752 ∷ 459776 ∷ 460800 ∷ 461824 ∷ 462848 ∷ 463872
    ∷ 464896 ∷ 465920 ∷ 466944 ∷ 467968 ∷ 468992 ∷ 470016 ∷ 471040 ∷ 472064 ∷ 473088 ∷ 474112
    ∷ 475136 ∷ 476160 ∷ 477184 ∷ 478208 ∷ 479232 ∷ 480256 ∷ 481280 ∷ 482304 ∷ 483328 ∷ 484352
    ∷ 485376 ∷ 486400 ∷ 487424 ∷ 488448 ∷ 489472 ∷ 490496 ∷ 491520 ∷ 492544 ∷ 493568 ∷ 494592
    ∷ 495616 ∷ 496640 ∷ 497664 ∷ 498688 ∷ 499712 ∷ 500736 ∷ 501760 ∷ 502784 ∷ 503808 ∷ 504832
    ∷ 505856 ∷ 506880 ∷ 507904 ∷ 508928 ∷ 509952 ∷ 510976 ∷ 512000 ∷ 513024 ∷ 514048 ∷ 515072
    ∷ 516096 ∷ 517120 ∷ 518144 ∷ 519168 ∷ 520192 ∷ 521216 ∷ 522240 ∷ 523264 ∷ 524288 ∷ 525312
    ∷ 526336 ∷ 527360 ∷ 528384 ∷ 529408 ∷ 530432 ∷ 531456 ∷ 532480 ∷ 533504 ∷ 534528 ∷ 535552
    ∷ 536576 ∷ 537600 ∷ 538624 ∷ 539648 ∷ 540672 ∷ 541696 ∷ 542720 ∷ 543744 ∷ 544768 ∷ 545792
    ∷ 546816 ∷ 547840 ∷ 548864 ∷ 549888 ∷ 550912 ∷ 551936 ∷ 552960 ∷ 553984 ∷ 555008 ∷ 556032
    ∷ 557056 ∷ 558080 ∷ 559104 ∷ 560128 ∷ 561152 ∷ 562176 ∷ 563200 ∷ 564224 ∷ 565248 ∷ 566272
    ∷ 567296 ∷ 568320 ∷ 569344 ∷ 570368 ∷ 571392 ∷ 572416 ∷ 573440 ∷ 574464 ∷ 575488 ∷ 576512
    ∷ 577536 ∷ 578560 ∷ 579584 ∷ 580608 ∷ 581632 ∷ 582656 ∷ 583680 ∷ 584704 ∷ 585728 ∷ 586752
    ∷ 587776 ∷ 588800 ∷ 589824 ∷ 590848 ∷ 591872 ∷ 592896 ∷ 593920 ∷ 594944 ∷ 595968 ∷ 596992
    ∷ 598016 ∷ 599040 ∷ 600064 ∷ 601088 ∷ 602112 ∷ 603136 ∷ 604160 ∷ 605184 ∷ 606208 ∷ 607232
    ∷ 608256 ∷ 609280 ∷ 610304 ∷ 611328 ∷ 612352 ∷ 613376 ∷ 614400 ∷ 615424 ∷ 616448 ∷ 617472
    ∷ 618496 ∷ 619520 ∷ 620544 ∷ 621568 ∷ 622592 ∷ 623616 ∷ 624640 ∷ 625664 ∷ 626688 ∷ 627712
    ∷ 628736 ∷ 629760 ∷ 630784 ∷ 631808 ∷ 632832 ∷ 633856 ∷ 634880 ∷ 635904 ∷ 636928 ∷ 637952
    ∷ 638976 ∷ 640000 ∷ 641024 ∷ 642048 ∷ 643072 ∷ 644096 ∷ 645120 ∷ 646144 ∷ 647168 ∷ 648192
    ∷ 649216 ∷ 650240 ∷ 651264 ∷ 652288 ∷ 653312 ∷ 654336 ∷ 655360 ∷ 656384 ∷ 657408 ∷ 658432
    ∷ 659456 ∷ 660480 ∷ 661504 ∷ 662528 ∷ 663552 ∷ 664576 ∷ 665600 ∷ 666624 ∷ 667648 ∷ 668672
    ∷ 669696 ∷ 670720 ∷ 671744 ∷ 672768 ∷ 673792 ∷ 674816 ∷ 675840 ∷ 676864 ∷ 677888 ∷ 678912
    ∷ 679936 ∷ 680960 ∷ 681984 ∷ 683008 ∷ 684032 ∷ 685056 ∷ 686080 ∷ 687104 ∷ 688128 ∷ 689152
    ∷ 690176 ∷ 691200 ∷ 692224 ∷ 693248 ∷ 694272 ∷ 695296 ∷ 696320 ∷ 697344 ∷ 698368 ∷ 699392
    ∷ 700416 ∷ 701440 ∷ 702464 ∷ 703488 ∷ 704512 ∷ 705536 ∷ 706560 ∷ 707584 ∷ 708608 ∷ 709632
    ∷ 710656 ∷ 711680 ∷ 712704 ∷ 713728 ∷ 714752 ∷ 715776 ∷ 716800 ∷ 717824 ∷ 718848 ∷ 719872
    ∷ 720896 ∷ 721920 ∷ 722944 ∷ 723968 ∷ 724992 ∷ 726016 ∷ 727040 ∷ 728064 ∷ 729088 ∷ 730112
    ∷ 731136 ∷ 732160 ∷ 733184 ∷ 734208 ∷ 735232 ∷ 736256 ∷ 737280 ∷ 738304 ∷ 739328 ∷ 740352
    ∷ 741376 ∷ 742400 ∷ 743424 ∷ 744448 ∷ 745472 ∷ 746496 ∷ 747520 ∷ 748544 ∷ 749568 ∷ 750592
    ∷ 751616 ∷ 752640 ∷ 753664 ∷ 754688 ∷ 755712 ∷ 756736 ∷ 757760 ∷ 758784 ∷ 759808 ∷ 760832
    ∷ 761856 ∷ 762880 ∷ 763904 ∷ 764928 ∷ 765952 ∷ 766976 ∷ 768000 ∷ 769024 ∷ 770048 ∷ 771072
    ∷ 772096 ∷ 773120 ∷ 774144 ∷ 775168 ∷ 776192 ∷ 777216 ∷ 778240 ∷ 779264 ∷ 780288 ∷ 781312
    ∷ 782336 ∷ 783360 ∷ 784384 ∷ 785408 ∷ 786432 ∷ 787456 ∷ 788480 ∷ 789504 ∷ 790528 ∷ 791552
    ∷ 792576 ∷ 793600 ∷ 794624 ∷ 795648 ∷ 796672 ∷ 797696 ∷ 798720 ∷ 799744 ∷ 800768 ∷ 801792
    ∷ 802816 ∷ 803840 ∷ 804864 ∷ 805888 ∷ 806912 ∷ 807936 ∷ 808960 ∷ 809984 ∷ 811008 ∷ 812032
    ∷ 813056 ∷ 814080 ∷ 815104 ∷ 816128 ∷ 817152 ∷ 818176 ∷ 819200 ∷ 820224 ∷ 821248 ∷ 822272
    ∷ 823296 ∷ 824320 ∷ 825344 ∷ 826368 ∷ 827392 ∷ 828416 ∷ 829440 ∷ 830464 ∷ 831488 ∷ 832512
    ∷ 833536 ∷ 834560 ∷ 835584 ∷ 836608 ∷ 837632 ∷ 838656 ∷ 839680 ∷ 840704 ∷ 841728 ∷ 842752
    ∷ 843776 ∷ 844800 ∷ 845824 ∷ 846848 ∷ 847872 ∷ 848896 ∷ 849920 ∷ 850944 ∷ 851968 ∷ 852992
    ∷ 854016 ∷ 855040 ∷ 856064 ∷ 857088 ∷ 858112 ∷ 859136 ∷ 860160 ∷ 861184 ∷ 862208 ∷ 863232
    ∷ 864256 ∷ 865280 ∷ 866304 ∷ 867328 ∷ 868352 ∷ 869376 ∷ 870400 ∷ 871424 ∷ 872448 ∷ 873472
    ∷ 874496 ∷ 875520 ∷ 876544 ∷ 877568 ∷ 878592 ∷ 879616 ∷ 880640 ∷ 881664 ∷ 882688 ∷ 883712
    ∷ 884736 ∷ 885760 ∷ 886784 ∷ 887808 ∷ 888832 ∷ 889856 ∷ 890880 ∷ 891904 ∷ 892928 ∷ 893952
    ∷ 894976 ∷ 896000 ∷ 897024 ∷ 898048 ∷ 899072 ∷ 900096 ∷ 901120 ∷ 902144 ∷ 903168 ∷ 904192
    ∷ 905216 ∷ 906240 ∷ 907264 ∷ 908288 ∷ 909312 ∷ 910336 ∷ 911360 ∷ 912384 ∷ 913408 ∷ 914432
    ∷ 915456 ∷ 916480 ∷ 917504 ∷ 918528 ∷ 919552 ∷ 920576 ∷ 921600 ∷ 922624 ∷ 923648 ∷ 924672
    ∷ 925696 ∷ 926720 ∷ 927744 ∷ 928768 ∷ 929792 ∷ 930816 ∷ 931840 ∷ 932864 ∷ 933888 ∷ 934912
    ∷ 935936 ∷ 936960 ∷ 937984 ∷ 939008 ∷ 940032 ∷ 941056 ∷ 942080 ∷ 943104 ∷ 944128 ∷ 945152
    ∷ 946176 ∷ 947200 ∷ 948224 ∷ 949248 ∷ 950272 ∷ 951296 ∷ 952320 ∷ 953344 ∷ 954368 ∷ 955392
    ∷ 956416 ∷ 957440 ∷ 958464 ∷ 959488 ∷ 960512 ∷ 961536 ∷ 962560 ∷ 963584 ∷ 964608 ∷ 965632
    ∷ 966656 ∷ 967680 ∷ 968704 ∷ 969728 ∷ 970752 ∷ 971776 ∷ 972800 ∷ 973824 ∷ 974848 ∷ 975872
    ∷ 976896 ∷ 977920 ∷ 978944 ∷ 979968 ∷ 980992 ∷ 982016 ∷ 983040 ∷ 984064 ∷ 985088 ∷ 986112
    ∷ 987136 ∷ 988160 ∷ 989184 ∷ 990208 ∷ 991232 ∷ 992256 ∷ 993280 ∷ 994304 ∷ 995328 ∷ 996352
    ∷ 997376 ∷ 998400 ∷ 999424 ∷ 1000448 ∷ 1001472 ∷ 1002496 ∷ 1003520 ∷ 1004544 ∷ 1005568 ∷ 1006592
    ∷ 1007616 ∷ 1008640 ∷ 1009664 ∷ 1010688 ∷ 1011712 ∷ 1012736 ∷ 1013760 ∷ 1014784 ∷ 1015808
    ∷ 1016832 ∷ 1017856 ∷ 1018880 ∷ 1019904 ∷ 1020928 ∷ 1021952 ∷ 1022976 ∷ 1024000 ∷ 1025024
    ∷ 1026048 ∷ 1027072 ∷ 1028096 ∷ 1029120 ∷ 1030144 ∷ 1031168 ∷ 1032192 ∷ 1033216 ∷ 1034240
    ∷ 1035264 ∷ 1036288 ∷ 1037312 ∷ 1038336 ∷ 1039360 ∷ 1040384 ∷ 1041408 ∷ 1042432 ∷ 1043456
    ∷ 1044480 ∷ 1045504 ∷ 1046528 ∷ 1047552 ∷ 1048576 ∷ []
